-- ===== src/Gitcommit/Proofs/Legal.antt =====
-- Where `Submit` and `ApplyFiles` of internal/gitcommit/gitcommit.go write.
use workspace_gateway.Base.{
  Bool, true, false, ◌&&◌, not, List, [], ◌∷◌, Option, ◌≡◌, arith, if◌then◌else◌, null, Text, codes,
  text_eq, has_prefix, contains, trim_space, Result, ok, err, not-true,
}
use workspace_gateway.Base.Exec.{
  Keeps, Keeps-pure, Keeps-raise, Keeps-if, Keeps-bind, Keeps-attempt, Keeps-require,
}
use workspace_gateway.Gitcommit.Files.{
  dir_of, is_illegal, is_ignored, remove_unless_absent, write_to, apply_file, apply_all,
  has_staged_changes, stage, unless_up_to_date, submit,
}
use workspace_gateway.Gitcommit.Git.{
  FileOp, Options, GitError, new_branch_required, message_required, no_operations, no_changes,
  illegal_path, ignored_path, up_to_date, Git,
}

-- A path in the work tree: relative, not empty, and nowhere with two dots.
pub record IsInside (path : Text) : Type 0 where
  pub not_empty : null path ≡ false
  pub no_parent : contains path (codes "..") ≡ false
  pub relative : has_prefix path (codes "/") ≡ false

IsInside-of : (path : Text) → is_illegal path ≡ false → IsInside path
unfolding is_illegal
IsInside-of path h = record {
  not_empty = ground (arith, h);
  no_parent = ground (arith, h);
  relative = ground (arith, h);
}

module _ {S : Type 0} (git : Git S) (P : S → Type 0) where
  -- Calls that write into the work tree inside it, and calls that only read or stage, keep `P`.
  pub record StaysInside : Type 0 where
    pub removing : (path : Text) → IsInside path → Keeps P (git.remove_file path)
    pub making : (path : Text) → IsInside path → Keeps P (git.make_dirs (dir_of path))
    pub creating : (path : Text) → IsInside path → Keeps P (git.create_file path)
    pub copying : (path content : Text) → IsInside path → Keeps P (git.copy_into path content)
    pub opening : Keeps P git.worktree
    pub reading : Keeps P git.read_patterns
    pub adding : Keeps P git.add_all
    pub looking : Keeps P git.status_is_clean

  pub unless_up_to_date-Keeps : (r : Result GitError (Unit {0})) → Keeps P (unless_up_to_date git r)
  unless_up_to_date-Keeps (ok _) = Keeps-pure tt
  unless_up_to_date-Keeps (err up_to_date) = Keeps-pure tt
  unless_up_to_date-Keeps (err GitError.new_branch_required) = Keeps-raise _
  unless_up_to_date-Keeps (err GitError.message_required) = Keeps-raise _
  unless_up_to_date-Keeps (err GitError.no_operations) = Keeps-raise _
  unless_up_to_date-Keeps (err GitError.no_changes) = Keeps-raise _
  unless_up_to_date-Keeps (err GitError.nothing_open) = Keeps-raise _
  unless_up_to_date-Keeps (err GitError.nothing_staged) = Keeps-raise _
  unless_up_to_date-Keeps (err GitError.path_required) = Keeps-raise _
  unless_up_to_date-Keeps (err (GitError.illegal_path _)) = Keeps-raise _
  unless_up_to_date-Keeps (err (GitError.ignored_path _)) = Keeps-raise _
  unless_up_to_date-Keeps (err (GitError.unknown_ref _)) = Keeps-raise _
  unless_up_to_date-Keeps (err GitError.empty_commit) = Keeps-raise _
  unless_up_to_date-Keeps (err (GitError.call_failed _)) = Keeps-raise _

  module _ (inside : StaysInside) where
    remove_unless_absent-Keeps :
        (path : Text) → IsInside path → Keeps P (remove_unless_absent git path)
    remove_unless_absent-Keeps path h = record { at = λ s p. go (git.stat_fails path s) s p }
      where
        go : (b : Bool) (s : S) → P s → P (if b then (ok tt, s) else git.remove_file path s).1
        go true s p = p
        go false s p = (inside.removing path h).at s p

    write_to-Keeps : (path content : Text) → IsInside path → Keeps P (write_to git path content)
    write_to-Keeps path content h =
        Keeps-bind _ _
          (Keeps-if (not (text_eq (dir_of path) (codes ".")) && not (null (dir_of path))) _ _
            (λ _. inside.making path h) (λ _. Keeps-pure tt))
          λ _. Keeps-bind _ _ (inside.creating path h) λ _. inside.copying path content h

    apply_file-Keeps :
        (op : FileOp) (ignored : Option (List Text → Bool)) → Keeps P (apply_file git op ignored)
    unfolding apply_file
    apply_file-Keeps op ignored =
        Keeps-require (not (is_illegal (trim_space op.path))) (illegal_path op.path) _ λ legal.
          Keeps-require (not (is_ignored ignored (trim_space op.path)))
            (ignored_path (trim_space op.path)) _
            λ _.
              Keeps-if (text_eq op.op (codes "delete")) _ _
                (λ _.
                  remove_unless_absent-Keeps (trim_space op.path)
                    (IsInside-of _ (not-true _ legal)))
                (λ _.
                  write_to-Keeps (trim_space op.path) op.content (IsInside-of _ (not-true _ legal)))

    apply_all-Keeps :
        (ops : List FileOp) (ignored : Option (List Text → Bool))
        → Keeps P (apply_all git ops ignored)
    unfolding apply_all
    apply_all-Keeps [] ignored = Keeps-pure tt
    apply_all-Keeps (op ∷ ops) ignored =
        Keeps-bind _ _ (apply_file-Keeps op ignored) λ _. apply_all-Keeps ops ignored

    pub stage-Keeps : (ops : List FileOp) → Keeps P (stage git ops)
    unfolding stage
    stage-Keeps ops = Keeps-bind _ _ inside.opening λ _.
        Keeps-bind _ _ inside.reading
          λ ignored. Keeps-bind _ _ (apply_all-Keeps ops ignored) λ _. inside.adding

    pub has_staged_changes-Keeps : Keeps P (has_staged_changes git)
    unfolding has_staged_changes
    has_staged_changes-Keeps = Keeps-bind _ _ inside.looking λ _. Keeps-pure _

  -- The other calls that a submission of `message` to `new_branch` on top of `base` may make.
  pub record IsSubmission (o : Options) (base new_branch message : Text) : Type 0 where
    pub inside : StaysInside
    pub making_dir : Keeps P git.new_dir
    pub cloning : Keeps P (git.clone_branch o base)
    pub committing : Keeps P (git.commit message false)
    pub pointing : (hash : Text) → Keeps P (git.set_branch new_branch hash)
    pub pushing : Keeps P (git.push_new new_branch)

  -- Take any property of the clone and its remote that is kept by cloning `base`, by one commit of
  -- the message that amends nothing, by pointing at `new_branch` and pushing it without force, and
  -- by writing and removing files at paths that are relative and without two dots. `Submit` keeps
  -- it, whatever paths it is given: it writes nowhere else and pushes no other branch.
  pub submit-IsSubmission :
      (o : Options) (base new_branch message : Text) (ops : List FileOp)
      → IsSubmission o base new_branch message
      → Keeps P (submit git o base new_branch message ops)
  unfolding submit
  submit-IsSubmission o base new_branch message ops allowed =
      Keeps-require (not (null (trim_space new_branch))) new_branch_required _ λ _.
        Keeps-require (not (null (trim_space message))) message_required _ λ _.
          Keeps-require (not (null ops)) no_operations _ λ _. Keeps-bind _ _ allowed.making_dir λ _.
            Keeps-bind _ _ allowed.cloning λ _. Keeps-bind _ _ (stage-Keeps allowed.inside ops) λ _.
              Keeps-bind _ _ (has_staged_changes-Keeps allowed.inside) λ staged.
                Keeps-require staged no_changes _ λ _. Keeps-bind _ _ allowed.committing λ hash.
                  Keeps-bind _ _ (allowed.pointing hash) λ _.
                    Keeps-bind _ _ (Keeps-attempt _ allowed.pushing)
                      λ r. Keeps-bind _ _ (unless_up_to_date-Keeps r) λ _. Keeps-pure hash
