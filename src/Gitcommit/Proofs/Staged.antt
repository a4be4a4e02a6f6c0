-- ===== src/Gitcommit/Proofs/Staged.antt =====
-- The staging area of internal/gitcommit/gitcommit.go as the steps that its package comment describes.
use workspace_gateway.Base.{
  Bool, true, false, not, List, [], ◌∷◌, ◌≡◌, ◌≢◌, refl, sym, ap, subst, ◌∙◌, if◌then◌else◌, Text,
  Result, ok, err,
}
use workspace_gateway.Base.Exec.{
  Exec, ◌>>=◌, ◌>>◌, pure, attempt, require, Keeps, Keeps-bind, Keeps-attempt, Keeps-pure,
}
use workspace_gateway.Base.Leaves.{
  After, Leaves, Leaves-pure, Leaves-raise, Leaves-bind, Leaves-attempt, Leaves-behind,
  Leaves-weaken, Leaves-require, After-of,
}
use workspace_gateway.Gitcommit.Git.{
  FileOp, GitError, no_changes, nothing_open, nothing_staged, empty_commit, Commit, Git,
  placeholder_message, is_placeholder,
}
use workspace_gateway.Gitcommit.Proofs.Legal.{
  StaysInside, stage-Keeps, has_staged_changes-Keeps, unless_up_to_date-Keeps,
}
use workspace_gateway.Gitcommit.Staging.{
  commit_is_empty, is_empty_above, push, made_or, apply_files, tip_or, commit_staged,
}

-- A commit of the branch: its message and its tree.
abbrev pub Entry : Type 0
Entry = Text × Text

-- The commits without the newest.
abbrev tail : List Entry → List Entry
tail [] = []
tail (e ∷ h) = h

-- The commits of the branch in a clone, newest first, and the tree of its index: of the calls that the
-- staging area makes, only a commit changes them, and it records the index under its message, in
-- place of the newest commit where it amends.
pub record IsBranch {S : Type 0} (git : Git S) (history : S → List Entry) (index : S → Text)
    : Type 0 where
  pub inside : (h : List Entry) → StaysInside git (λ s. history s ≡ h)
  pub head_keeps : (s : S) → history (git.head_commit s).1 ≡ history s
  pub head_reads :
      (s : S) (c : Commit)
      → (git.head_commit s).0 ≡ ok c
      → (tree : Text) × (rest : List Entry) × (history s ≡ (c.message, tree) ∷ rest)
  pub object_keeps : (hash : Text) (s : S) → history (git.commit_object hash s).1 ≡ history s
  pub push_keeps : (branch : Text) (s : S) → history (git.push_force branch s).1 ≡ history s
  pub commit_records :
      (message hash : Text) (amend : Bool) (s : S)
      → (git.commit message amend s).0 ≡ ok hash
      → history (git.commit message amend s).1
        ≡ (message, index s) ∷ (if amend then tail (history s) else history s)
  -- `AllowEmptyCommits`
  pub amend_allows_empty :
      (message : Text) (s : S) → (git.commit message true s).0 ≢ err empty_commit

-- What a write does to the commits of the branch: on a normal commit a placeholder is opened, and a
-- placeholder is amended.
pub data IsWrite : List Entry → List Entry → Type 0 where
  opened :
      (message tree staged : Text) (h : List Entry)
      → is_placeholder message ≡ false
      → IsWrite ((message, tree) ∷ h) ((placeholder_message, staged) ∷ (message, tree) ∷ h)
  amended :
      (message tree staged : Text) (h : List Entry)
      → is_placeholder message ≡ true
      → IsWrite ((message, tree) ∷ h) ((placeholder_message, staged) ∷ h)

-- What closing the staging area does: the placeholder gets the message.
pub data IsClosed (message : Text) : List Entry → List Entry → Type 0 where
  reworded :
      (placeholder tree staged : Text) (h : List Entry)
      → is_placeholder placeholder ≡ true
      → IsClosed message ((placeholder, tree) ∷ h) ((message, staged) ∷ h)

-- A commit is the newest of some.
abbrev IsNewest : List Entry → Commit → Type 0
IsNewest h c = (tree : Text) × (rest : List Entry) × (h ≡ (c.message, tree) ∷ rest)

write_of :
    (message tree staged : Text) (rest before after : List Entry) (b : Bool)
    → before ≡ (message, tree) ∷ rest
    → is_placeholder message ≡ b
    → after ≡ (placeholder_message, staged) ∷ (if b then tail before else before)
    → IsWrite before after
write_of message tree staged rest before after true e p q =
    subst (λ l. IsWrite l after) (sym e)
      (subst (IsWrite ((message, tree) ∷ rest))
        (sym (q ∙ ap (λ l. (placeholder_message, staged) ∷ tail l) e))
        (amended message tree staged rest p))
write_of message tree staged rest before after false e p q =
    subst (λ l. IsWrite l after) (sym e)
      (subst (IsWrite ((message, tree) ∷ rest))
        (sym (q ∙ ap (λ l. (placeholder_message, staged) ∷ l) e))
        (opened message tree staged rest p))

IsClosed-of :
    (message placeholder tree staged : Text) (rest before after : List Entry)
    → before ≡ (placeholder, tree) ∷ rest
    → is_placeholder placeholder ≡ true
    → after ≡ (message, staged) ∷ tail before
    → IsClosed message before after
IsClosed-of message placeholder tree staged rest before after e p q =
    subst (λ l. IsClosed message l after) (sym e)
      (subst (IsClosed message ((placeholder, tree) ∷ rest))
        (sym (q ∙ ap (λ l. (message, staged) ∷ tail l) e))
        (reworded placeholder tree staged rest p))

module _ {S : Type 0} (git : Git S) (history : S → List Entry) (index : S → Text)
    (lawful : IsBranch git history index) (h : List Entry) where
  abbrev At : S → Type 0
  At s = history s ≡ h

  -- The head commit is the newest of them.
  abbrev HeadIs : Commit → S → Type 0
  HeadIs c s = (history s ≡ h) × IsNewest h c

  head_commit-Leaves : Leaves At HeadIs git.head_commit
  head_commit-Leaves = record { holds = λ s e. go s e (git.head_commit s).0 refl }
    where
      go :
          (s : S)
          → history s ≡ h
          → (r : Result GitError Commit) → (git.head_commit s).0 ≡ r
          → After HeadIs r (git.head_commit s).1
      go s e (ok c) read =
          let (tree, rest, newest) = lawful.head_reads s c read in
          (lawful.head_keeps s ∙ e, (tree, rest, sym e ∙ newest))
      go s e (err _) read = tt

  push-Keeps :
      (branch : Text) (Q : List Entry → Type 0) → Keeps (λ s. Q (history s)) (push git branch)
  unfolding push
  push-Keeps branch Q =
      Keeps-bind _ _
        (Keeps-attempt _ (record { at = λ s q. subst Q (sym (lawful.push_keeps branch s)) q }))
        (unless_up_to_date-Keeps git (λ s. Q (history s)))

  -- A commit that was made has written the message and the index.
  commit-Leaves :
      (message : Text) (amend : Bool)
      → Leaves At
          (λ _ s. (staged : Text) × (history s ≡ (message, staged) ∷ (if amend then tail h else h)))
          (git.commit message amend)
  commit-Leaves message amend = record { holds = λ s e. go s e (git.commit message amend s).0 refl }
    where
      go :
          (s : S)
          → history s ≡ h
          → (r : Result GitError Text) → (git.commit message amend s).0 ≡ r
          → After
              (λ _ s.
                (staged : Text) × (history s ≡ (message, staged) ∷ (if amend then tail h else h)))
              r
              (git.commit message amend s).1
      go s e (ok hash) made = (
        index s,
        subst
            (λ l.
              history (git.commit message amend s).1
              ≡ (message, index s) ∷ (if amend then tail l else l))
            e (lawful.commit_records message hash amend s made),
      )
      go s e (err _) made = tt

  -- Where the result of a commit is looked at: it was made, or failed otherwise than as empty.
  abbrev MadeOrFailed : Text → Result GitError Text → S → Type 0
  MadeOrFailed message (ok hash) s = (staged : Text) × (history s ≡ (message, staged) ∷ tail h)
  MadeOrFailed message (err e) s = e ≢ empty_commit

  made-Leaves :
      (message : Text)
      → Leaves At (λ r s. MadeOrFailed message r s) (attempt (git.commit message true))
  made-Leaves message = record { holds = λ s e. go s e (git.commit message true s).0 refl }
    where
      go :
          (s : S)
          → history s ≡ h
          → (r : Result GitError Text) → (git.commit message true s).0 ≡ r
          → MadeOrFailed message r (git.commit message true s).1
      go s e (ok hash) made = (
        index s,
        subst (λ l. history (git.commit message true s).1 ≡ (message, index s) ∷ tail l) e
            (lawful.commit_records message hash true s made),
      )
      go s e (err x) made = λ empty. lawful.amend_allows_empty message s (made ∙ ap err empty)

  made_or-Leaves :
      (Q : S → Type 0) (r : Result GitError Text)
      → Leaves (After (λ _. Q) r) (λ _. Q) (made_or git r)
  made_or-Leaves Q (ok hash) = Leaves-pure hash λ s q. q
  made_or-Leaves Q (err e) = no_value e
    where
      no_value : (e : GitError) → Leaves (λ _. Unit) (λ _. Q) (made_or git (err e))
      no_value empty_commit = Leaves-raise _
      no_value GitError.new_branch_required = Leaves-raise _
      no_value GitError.message_required = Leaves-raise _
      no_value GitError.no_operations = Leaves-raise _
      no_value GitError.no_changes = Leaves-raise _
      no_value GitError.nothing_open = Leaves-raise _
      no_value GitError.nothing_staged = Leaves-raise _
      no_value GitError.path_required = Leaves-raise _
      no_value (GitError.illegal_path _) = Leaves-raise _
      no_value (GitError.ignored_path _) = Leaves-raise _
      no_value (GitError.unknown_ref _) = Leaves-raise _
      no_value GitError.up_to_date = Leaves-raise _
      no_value (GitError.call_failed _) = Leaves-raise _

  -- A call that keeps the commits, behind the reading of the head.
  reads :
      {A : Type 0} (c : Commit) (m : Exec GitError S A)
      → Keeps At m
      → Leaves (HeadIs c) (λ _. HeadIs c) m
  reads c m k = record {
    holds = λ s (e, newest). After-of (λ _. HeadIs c) (m s).0 (m s).1 (λ _. (k.at s e, newest));
  }

  wrote :
      (c : Commit)
      → Leaves
          (HeadIs c)
          (λ _ s. IsWrite h (history s))
          (git.commit placeholder_message (is_placeholder c.message))
  wrote c = record {
    holds = λ s (e, (tree, rest, newest)).
        (Leaves-weaken At _ (λ _ s. IsWrite h (history s)) _ (λ s e. e)
            (λ _ s (staged, q).
              write_of c.message tree staged rest h (history s) (is_placeholder c.message) newest
                refl q)
            (commit-Leaves placeholder_message (is_placeholder c.message))).holds
          s e;
  }

  -- Where go-git reads and changes the commits of the branch as documented: an `ApplyFiles` that
  -- returns has put one placeholder commit on a normal head commit, or has amended the placeholder
  -- that was the head; no older commit is changed.
  pub apply_files-IsWrite :
      (branch : Text) (ops : List FileOp)
      → Leaves At (λ _ s. IsWrite h (history s)) (apply_files git branch ops)
  unfolding apply_files
  apply_files-IsWrite branch ops =
      Leaves-behind _ _ _ (stage-Keeps git At (lawful.inside h) ops) λ _.
        Leaves-bind HeadIs _ _ _ head_commit-Leaves λ c.
          Leaves-bind (λ _. HeadIs c) _ _ _
            (reads c _ (has_staged_changes-Keeps git At (lawful.inside h)))
            λ staged. Leaves-require staged no_changes _ _ (
              Leaves-bind _ _ _ _ (Leaves-attempt (λ _ s. IsWrite h (history s)) _ (wrote c))
                λ made.
                  Leaves-bind (λ _ s. IsWrite h (history s)) _ _ _
                    (made_or-Leaves (λ s. IsWrite h (history s)) made)
                    λ hash.
                      Leaves-behind _ _ _ (push-Keeps branch (IsWrite h))
                        λ _. Leaves-pure hash λ s q. q)

  is_empty_above-Keeps :
      (c : Commit) (parents : List Text) → Keeps At (is_empty_above git c parents)
  is_empty_above-Keeps c [] = Keeps-pure _
  is_empty_above-Keeps c (parent ∷ _) =
      Keeps-bind _ _ (record { at = λ s e. lawful.object_keeps parent s ∙ e }) λ _. Keeps-pure _

  tip_or-Leaves :
      (c : Commit) (message : Text) (r : Result GitError Text)
      → is_placeholder c.message ≡ true
      → IsNewest h c
      → Leaves (MadeOrFailed message r) (λ _ s. IsClosed message h (history s)) (tip_or git r)
  tip_or-Leaves c message (ok hash) p (tree, rest, newest) =
      Leaves-pure hash
        λ s (staged, q). IsClosed-of message c.message tree staged rest h (history s) newest p q
  tip_or-Leaves c message (err e) p newest = no_value e
    where
      no_value :
          (e : GitError)
          → Leaves
              (λ _. e ≢ empty_commit)
              (λ _ s. IsClosed message h (history s))
              (tip_or git (err e))
      no_value empty_commit = Leaves-pure _ λ s no_empty. absurd (no_empty refl)
      no_value GitError.new_branch_required = Leaves-raise _
      no_value GitError.message_required = Leaves-raise _
      no_value GitError.no_operations = Leaves-raise _
      no_value GitError.no_changes = Leaves-raise _
      no_value GitError.nothing_open = Leaves-raise _
      no_value GitError.nothing_staged = Leaves-raise _
      no_value GitError.path_required = Leaves-raise _
      no_value (GitError.illegal_path _) = Leaves-raise _
      no_value (GitError.ignored_path _) = Leaves-raise _
      no_value (GitError.unknown_ref _) = Leaves-raise _
      no_value GitError.up_to_date = Leaves-raise _
      no_value (GitError.call_failed _) = Leaves-raise _

  closed :
      (c : Commit) (branch message : Text)
      → is_placeholder c.message ≡ true
      → Leaves
          (HeadIs c)
          (λ _ s. IsClosed message h (history s))
          (attempt (git.commit message true) >>= λ made.
            tip_or git made >>= λ tip. push git branch >>= λ _. pure tip)
  closed c branch message p = record {
    holds = λ s (e, newest).
        (Leaves-bind (MadeOrFailed message) _ _ _ (made-Leaves message) λ made.
            Leaves-bind (λ _ s. IsClosed message h (history s)) _ _ _
              (tip_or-Leaves c message made p newest)
              λ tip.
                Leaves-behind _ _ _ (push-Keeps branch (IsClosed message h))
                  λ _. Leaves-pure tip λ s q. q).holds
          s e;
  }

  -- Where go-git reads and changes the commits of the branch as documented: a `Commit` that returns
  -- has given the placeholder that was the head the message; no older commit is changed, none is
  -- added, and without a placeholder it does not return.
  pub commit_staged-IsClosed :
      (branch message : Text)
      → Leaves At (λ _ s. IsClosed message h (history s)) (commit_staged git branch message)
  unfolding commit_staged commit_is_empty
  commit_staged-IsClosed branch message =
      Leaves-bind HeadIs _ _ _ head_commit-Leaves λ c. open_area c (is_placeholder c.message) refl
    where
      open_area :
          (c : Commit) (b : Bool)
          → is_placeholder c.message ≡ b
          → Leaves
              (HeadIs c)
              (λ _ s. IsClosed message h (history s))
              (require b nothing_open
                >> (commit_is_empty git c >>= λ empty.
                    require (not empty) nothing_staged
                    >> (git.worktree
                        >> (attempt (git.commit message true) >>= λ made.
                            tip_or git made >>= λ tip. push git branch >>= λ _. pure tip))))
      open_area c false p = record { holds = λ s q. tt }
      open_area c true p = Leaves-require true nothing_open _ _ (
          Leaves-bind (λ _. HeadIs c) _ _ _ (reads c _ (is_empty_above-Keeps c c.parents))
            λ empty. Leaves-require (not empty) nothing_staged _ _ (
              Leaves-bind (λ _. HeadIs c) _ _ _ (reads c _ (lawful.inside h).opening)
                λ _. closed c branch message p))
