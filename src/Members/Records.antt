-- ===== src/Members/Records.antt =====
-- Submission and free-session records of internal/members/members.go: upserts keep one row for each
-- key, and a lookup gives what was last written.
use workspace_gateway.Base.{
  ℕ, Bool, true, false, ◌&&◌, none, some, ◌≡◌, arith, ap, if◌then◌else◌, ◌==◌, Text, text_eq,
  text_eq_iff, text_eq_refl, Bool-cases, inl, inr, ok,
}
use workspace_gateway.Base.Exec.{◌>>=◌, ◌>>◌}
use workspace_gateway.Base.Table.{
  first-delete_other, first-delete_same, first-replace_same, first-replace_other,
}
use workspace_gateway.Members.Store.{
  Store, SubmissionRow, FreeRow, is_submission, is_free, submission_of, role_of, add_mr_submission,
  mr_submission, delete_mr_submission, add_free_session, free_role,
}

is_submission_self :
    (t o r : Text) (i now : ℕ) (b h g : Text)
    → is_submission t o r i (record {
      tenant = t;
      submission = record {
        org = o;
        repo = r;
        index = i;
        base = b;
        head_ref = h;
        origin_session = g;
        created_at = now;
      };
    })
      ≡ true
is_submission_self t o r i now b h g =
    ground (arith, text_eq_refl t, text_eq_refl o, text_eq_refl r)

-- Two keys of the submission table are the same.
abbrev pub same_key : Text → Text → Text → ℕ → Text → Text → Text → ℕ → Bool
same_key t o r i t' o' r' i' = text_eq t t' && (text_eq o o' && (text_eq r r' && i == i'))

meets_key :
    (t o r : Text) (i : ℕ) (t' o' r' : Text) (i' : ℕ) (x : SubmissionRow)
    → is_submission t' o' r' i' x ≡ true
    → same_key t o r i t' o' r' i' ≡ true
    → is_submission t o r i x ≡ true
meets_key t o r i t' o' r' i' x h e = ground (
  arith,
  text_eq_iff t t',
  text_eq_iff o o',
  text_eq_iff r r',
  text_eq_iff x.tenant t',
  text_eq_iff x.submission.org o',
  text_eq_iff x.submission.repo r',
  text_eq_iff x.tenant t,
  text_eq_iff x.submission.org o,
  text_eq_iff x.submission.repo r,
)

meets_free :
    (t n t' n' : Text) (x : FreeRow)
    → is_free t' n' x ≡ true
    → (text_eq t t' && text_eq n n') ≡ true
    → is_free t n x ≡ true
meets_free t n t' n' x h e = ground (
  arith,
  text_eq_iff t t',
  text_eq_iff n n',
  text_eq_iff x.tenant t',
  text_eq_iff x.session n',
  text_eq_iff x.tenant t,
  text_eq_iff x.session n,
)

other_key :
    (t o r : Text) (i : ℕ) (t' o' r' : Text) (i' : ℕ) (x : SubmissionRow)
    → is_submission t' o' r' i' x ≡ true
    → same_key t o r i t' o' r' i' ≡ false
    → is_submission t o r i x ≡ false
other_key t o r i t' o' r' i' x h e = ground (
  arith,
  text_eq_iff t t',
  text_eq_iff o o',
  text_eq_iff r r',
  text_eq_iff x.tenant t',
  text_eq_iff x.submission.org o',
  text_eq_iff x.submission.repo r',
  text_eq_iff x.tenant t,
  text_eq_iff x.submission.org o,
  text_eq_iff x.submission.repo r,
)

other_free :
    (t n t' n' : Text) (x : FreeRow)
    → is_free t' n' x ≡ true
    → (text_eq t t' && text_eq n n') ≡ false
    → is_free t n x ≡ false
other_free t n t' n' x h e = ground (
  arith,
  text_eq_iff t t',
  text_eq_iff n n',
  text_eq_iff x.tenant t',
  text_eq_iff x.session n',
  text_eq_iff x.tenant t,
  text_eq_iff x.session n,
)

-- Where no statement fails, a submission that is recorded is found, with the base, head and origin
-- that were written and the time of writing, whatever was there before.
mr_submission-add :
    (t o r : Text) (i now : ℕ) (b h g : Text) (s : Store)
    → ((add_mr_submission none now t o r i b h g >> mr_submission none t o r i) s).0
      ≡ ok (
          some (record {
            org = o;
            repo = r;
            index = i;
            base = b;
            head_ref = h;
            origin_session = g;
            created_at = now;
          }))
unfolding add_mr_submission mr_submission ◌>>=◌
mr_submission-add t o r i now b h g s =
    ap (λ x. ok (submission_of x))
      (first-replace_same (is_submission t o r i) (is_submission t o r i) _ s.mr_submissions
        (λ x e. e) (is_submission_self t o r i now b h g))

-- Where no statement fails, a deleted submission is gone, and a lookup of any other one finds what
-- it found before.
mr_submission-delete :
    (t o r : Text) (i : ℕ) (t' o' r' : Text) (i' : ℕ) (s : Store)
    → ((delete_mr_submission none t o r i >> mr_submission none t' o' r' i') s).0
      ≡ (if same_key t o r i t' o' r' i' then ok none else (mr_submission none t' o' r' i' s).0)
unfolding delete_mr_submission mr_submission ◌>>=◌
mr_submission-delete t o r i t' o' r' i' s = elim (Bool-cases (same_key t o r i t' o' r' i')) [
  | inl e ↦ rw e (
      ap (λ x. ok (submission_of x))
        (first-delete_same _ _ s.mr_submissions (λ x h. meets_key t o r i t' o' r' i' x h e)))
  | inr e ↦ rw e (
      ap (λ x. ok (submission_of x))
        (first-delete_other _ _ s.mr_submissions (λ x h. other_key t o r i t' o' r' i' x h e)))
]

-- Where no statement fails, recording a session's role makes it the session's role, also where it
-- had one; other sessions keep theirs.
free_role-add :
    (t n role t' n' : Text) (s : Store)
    → ((add_free_session none t n role >> free_role none t' n') s).0
      ≡ (if text_eq t t' && text_eq n n' then ok (some role) else (free_role none t' n' s).0)
unfolding add_free_session free_role ◌>>=◌
free_role-add t n role t' n' s = elim (Bool-cases (text_eq t t' && text_eq n n')) [
  | inl e ↦ rw e (
      ap (λ x. ok (role_of x))
        (first-replace_same (is_free t' n') (is_free t n) _ s.free_sessions
          (λ x h. meets_free t n t' n' x h e) (ground (arith, text_eq_iff t t', text_eq_iff n n'))))
  | inr e ↦ rw e (
      ap (λ x. ok (role_of x))
        (first-replace_other (is_free t' n') (is_free t n) _ s.free_sessions
          (λ x h. other_free t n t' n' x h e) (ground (arith, text_eq_refl t, text_eq_refl n))))
]
