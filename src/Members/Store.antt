-- ===== src/Members/Store.antt =====
-- internal/members/members.go. The four tables are lists of rows in the order of insertion, and each
-- SQL statement is what it does to them. `fault` is the driver's error for the statement, if any; a
-- statement that fails changes nothing.
use workspace_gateway.Base.{
  ℕ, Bool, ◌&&◌, ◌||◌, List, [], Option, none, some, map, keep, ltb, ◌==◌, Text, text_eq, text_lt,
  ok, err,
}
use workspace_gateway.Base.Exec.{Exec}
use workspace_gateway.Base.Sorting.{sort}
use workspace_gateway.Base.Table.{insert_or_ignore, insert_or_replace, delete, first, count_rows}

-- `repo_owners`
pub record RepoRow : Type 0 where
  pub tenant : Text
  pub org : Text
  pub repo : Text

-- `org_owners`
pub record OrgRow : Type 0 where
  pub tenant : Text
  pub org : Text

-- `free_sessions`
pub record FreeRow : Type 0 where
  pub tenant : Text
  pub session : Text
  pub role : Text

-- `MRSubmission`
pub record MrSubmission : Type 0 where
  pub org : Text
  pub repo : Text
  pub index : ℕ
  pub base : Text
  pub head_ref : Text
  pub origin_session : Text
  pub created_at : ℕ

-- `mr_submissions`
pub record SubmissionRow : Type 0 where
  pub tenant : Text
  pub submission : MrSubmission

pub record Store : Type 0 where
  pub org_owners : List OrgRow
  pub repo_owners : List RepoRow
  pub free_sessions : List FreeRow
  pub mr_submissions : List SubmissionRow

-- `Open` on a new file.
abbrev pub empty : Store
empty = record { org_owners = []; repo_owners = []; free_sessions = []; mr_submissions = [] }

-- The keys of the WHERE clauses, which are the primary keys.
abbrev pub is_repo : Text → Text → Text → RepoRow → Bool
is_repo tenant org repo r = text_eq r.tenant tenant && (text_eq r.org org && text_eq r.repo repo)

abbrev pub is_org : Text → Text → OrgRow → Bool
is_org tenant org r = text_eq r.tenant tenant && text_eq r.org org

abbrev pub is_free : Text → Text → FreeRow → Bool
is_free tenant session r = text_eq r.tenant tenant && text_eq r.session session

abbrev pub is_submission : Text → Text → Text → ℕ → SubmissionRow → Bool
is_submission tenant org repo index r =
    text_eq r.tenant tenant
    && (text_eq r.submission.org org
        && (text_eq r.submission.repo repo && r.submission.index == index))

-- `db.Exec`
abbrev pub exec : Option Text → (Store → Store) → Exec Text Store (Unit {0})
exec none f s = (ok tt, f s)
exec (some e) f s = (err e, s)

-- `db.Query` and the scan of its rows
abbrev pub query : {A : Type 0} → Option Text → (Store → A) → Exec Text Store A
query none f s = (ok (f s), s)
query (some e) f s = (err e, s)

unfoldable pub add_repo : Option Text → Text → Text → Text → Exec Text Store (Unit {0})
add_repo fault tenant org repo = exec fault λ s. record s {
  repo_owners =
      insert_or_ignore (is_repo tenant org repo)
        (record { tenant = tenant; org = org; repo = repo }) s.repo_owners;
}

unfoldable pub owns_repo : Option Text → Text → Text → Text → Exec Text Store Bool
owns_repo fault tenant org repo =
    query fault λ s. ltb 0 (count_rows (is_repo tenant org repo) s.repo_owners)

unfoldable pub remove_repo : Option Text → Text → Text → Text → Exec Text Store (Unit {0})
remove_repo fault tenant org repo =
    exec fault λ s. record s { repo_owners = delete (is_repo tenant org repo) s.repo_owners }

unfoldable pub add_org : Option Text → Text → Text → Exec Text Store (Unit {0})
add_org fault tenant org = exec fault λ s. record s {
  org_owners =
      insert_or_ignore (is_org tenant org) (record { tenant = tenant; org = org }) s.org_owners;
}

unfoldable pub owns_org : Option Text → Text → Text → Exec Text Store Bool
owns_org fault tenant org = query fault λ s. ltb 0 (count_rows (is_org tenant org) s.org_owners)

abbrev pub owner_of : Option OrgRow → Text
owner_of none = []
owner_of (some r) = r.tenant

-- The query has no order: the first row in the order of insertion stands for any.
unfoldable pub org_owner : Option Text → Text → Exec Text Store Text
org_owner fault org = query fault λ s. owner_of (first (λ r. text_eq r.org org) s.org_owners)

unfoldable pub list_orgs : Option Text → Text → Exec Text Store (List Text)
list_orgs fault tenant =
    query fault
      λ s. sort text_lt (map (λ r. r.org) (keep (λ r. text_eq r.tenant tenant) s.org_owners))

-- ORDER BY org, repo
abbrev pub pair_lt : Text × Text → Text × Text → Bool
pair_lt p q = text_lt p.0 q.0 || text_eq p.0 q.0 && text_lt p.1 q.1

unfoldable pub list_repos : Option Text → Text → Exec Text Store (List (Text × Text))
unfolding text_lt
list_repos fault tenant = query fault λ s.
    sort pair_lt (map (λ r. (r.org, r.repo)) (keep (λ r. text_eq r.tenant tenant) s.repo_owners))

-- `now` is SQLite's strftime('%s','now').
unfoldable pub add_mr_submission :
    Option Text → ℕ → Text → Text → Text → ℕ → Text → Text → Text → Exec Text Store (Unit {0})
add_mr_submission fault now tenant org repo index base head_ref origin = exec fault λ s. record s {
  mr_submissions =
      insert_or_replace (is_submission tenant org repo index)
        (record {
          tenant = tenant;
          submission = record {
            org = org;
            repo = repo;
            index = index;
            base = base;
            head_ref = head_ref;
            origin_session = origin;
            created_at = now;
          };
        })
        s.mr_submissions;
}

abbrev pub submission_of : Option SubmissionRow → Option MrSubmission
submission_of none = none
submission_of (some r) = some r.submission

unfoldable pub mr_submission :
    Option Text → Text → Text → Text → ℕ → Exec Text Store (Option MrSubmission)
mr_submission fault tenant org repo index =
    query fault λ s. submission_of (first (is_submission tenant org repo index) s.mr_submissions)

unfoldable pub delete_mr_submission :
    Option Text → Text → Text → Text → ℕ → Exec Text Store (Unit {0})
delete_mr_submission fault tenant org repo index =
    exec fault λ s. record s {
      mr_submissions = delete (is_submission tenant org repo index) s.mr_submissions;
    }

unfoldable pub add_free_session : Option Text → Text → Text → Text → Exec Text Store (Unit {0})
add_free_session fault tenant session role = exec fault λ s. record s {
  free_sessions =
      insert_or_replace (is_free tenant session)
        (record { tenant = tenant; session = session; role = role }) s.free_sessions;
}

abbrev pub role_of : Option FreeRow → Option Text
role_of none = none
role_of (some r) = some r.role

unfoldable pub free_role : Option Text → Text → Text → Exec Text Store (Option Text)
free_role fault tenant session =
    query fault λ s. role_of (first (is_free tenant session) s.free_sessions)

unfoldable pub delete_free_session : Option Text → Text → Text → Exec Text Store (Unit {0})
delete_free_session fault tenant session =
    exec fault λ s. record s { free_sessions = delete (is_free tenant session) s.free_sessions }

unfoldable pub free_sessions_of : Option Text → Text → Exec Text Store (List (Text × Text))
unfolding text_lt
free_sessions_of fault tenant = query fault λ s.
    sort (λ p q. text_lt p.0 q.0)
      (map (λ r. (r.session, r.role)) (keep (λ r. text_eq r.tenant tenant) s.free_sessions))
