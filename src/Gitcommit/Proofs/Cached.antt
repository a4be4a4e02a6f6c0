-- ===== src/Gitcommit/Proofs/Cached.antt =====
-- The cache of clones of internal/gitcommit/gitcommit.go stays within its capacity.
use workspace_gateway.Base.{
  ℕ, zero, suc, ◌≤◌, ◌<◌, Bool, true, false, ◌&&◌, not, List, [], ◌∷◌, Option, none, some, ◌≡◌,
  refl, sym, subst, ap, arith, if◌then◌else◌, if_elim, null, map, any, all, Any, inl, inr, length,
  length-append, ltb, leb, Text, text_eq_refl, Result, ok, err,
}
use workspace_gateway.Base.Exec.{Exec, Keeps, Keeps-bind, Keeps-attempt}
use workspace_gateway.Base.Table.{delete, first}
use workspace_gateway.Gitcommit.Cache.{
  Cloned, World, key_of, oldest, has_key, on_git, drop_clone, evict_from, evict, evict_locked,
  refresh, keep_clone, clone_new, touched, clone_refreshed, clone_found, clone,
}
use workspace_gateway.Gitcommit.Git.{Options, GitError, Git}

length-map {ℓ κ} : {A : Type ℓ} {B : Type κ} (f : A → B) (l : List A) → length (map f l) ≡ length l
length-map f [] = refl
length-map f (x ∷ l) = ap suc (length-map f l)

module _ {R : Type 0} where
  length-delete : (p : R → Bool) (l : List R) → length (delete p l) ≤ length l
  length-delete p [] = omega arith
  length-delete p (x ∷ l) = ground (arith, length-delete p l)

  shorter : (p : R → Bool) (l : List R) → any p l ≡ true → length (delete p l) < length l
  shorter p [] h = absurd cc
  shorter p (x ∷ l) h = ground (arith, h, length-delete p l, shorter p l)

any_skip :
    {R : Type 0} (p : R → Bool) (c d : R) (l : List R)
    → any p (d ∷ l) ≡ true
    → any p (c ∷ d ∷ l) ≡ true
any_skip p c d l h = ground (arith, h)

any_second :
    {R : Type 0} (p : R → Bool) (c d : R) (l : List R)
    → any p (c ∷ l) ≡ true
    → any p (c ∷ d ∷ l) ≡ true
any_second p c d l h = ground (arith, h)

oldest_among : (c : Cloned) (l : List Cloned) → any (has_key (oldest c l).key) (c ∷ l) ≡ true
unfolding oldest
oldest_among c [] = ground (arith, text_eq_refl c.key)
oldest_among c (d ∷ l) = step (ltb d.last c.last) (oldest_among d l) (oldest_among c l)
  where
    step :
        (b : Bool)
        → any (has_key (oldest d l).key) (d ∷ l) ≡ true
        → any (has_key (oldest c l).key) (c ∷ l) ≡ true
        → any (has_key (oldest (if b then d else c) l).key) (c ∷ d ∷ l) ≡ true
    step true f g = any_skip (has_key (oldest d l).key) c d l f
    step false f g = any_second (has_key (oldest c l).key) c d l g

-- The clone that is evicted is one of those cached.
oldest-IsCached : (c : Cloned) (l : List Cloned) → Any (λ d. d ≡ oldest c l) (c ∷ l)
unfolding oldest
oldest-IsCached c [] = inl refl
oldest-IsCached c (d ∷ l) = step (ltb d.last c.last) (oldest-IsCached d l) (oldest-IsCached c l)
  where
    step :
        (b : Bool)
        → Any (λ x. x ≡ oldest d l) (d ∷ l)
        → Any (λ x. x ≡ oldest c l) (c ∷ l)
        → Any (λ x. x ≡ oldest (if b then d else c) l) (c ∷ d ∷ l)
    step true f g = inr f
    step false (inl f) (inl g) = inl g
    step false (inr f) (inl g) = inl g
    step false f (inr g) = inr (inr g)

least_skip :
    (n : ℕ) (c d : Cloned) (l : List Cloned)
    → ltb d.last c.last ≡ true
    → all (λ x. leb n x.last) (d ∷ l) ≡ true
    → all (λ x. leb n x.last) (c ∷ d ∷ l) ≡ true
least_skip n c d l e h = ground (arith, e, h)

least_second :
    (n : ℕ) (c d : Cloned) (l : List Cloned)
    → ltb d.last c.last ≡ false
    → all (λ x. leb n x.last) (c ∷ l) ≡ true
    → all (λ x. leb n x.last) (c ∷ d ∷ l) ≡ true
least_second n c d l e h = ground (arith, e, h)

-- The clone that is evicted was used no later than any other.
oldest_least :
    (c : Cloned) (l : List Cloned) → all (λ d. leb (oldest c l).last d.last) (c ∷ l) ≡ true
unfolding oldest
oldest_least c [] = ground arith
oldest_least c (d ∷ l) = step (ltb d.last c.last) refl (oldest_least d l) (oldest_least c l)
  where
    step :
        (b : Bool)
        → ltb d.last c.last ≡ b
        → all (λ x. leb (oldest d l).last x.last) (d ∷ l) ≡ true
        → all (λ x. leb (oldest c l).last x.last) (c ∷ l) ≡ true
        → all (λ x. leb (oldest (if b then d else c) l).last x.last) (c ∷ d ∷ l) ≡ true
    step true e f g = least_skip (oldest d l).last c d l e f
    step false e f g = least_second (oldest c l).last c d l e g

module _ {S : Type 0} (git : Text → Git S) (remove_all : Text → S → S) (now : S → ℕ) (caps : ℕ)
    (room : 0 < caps) where
  -- The cache holds no more clones than its capacity.
  abbrev pub IsBounded : World S → Type 0
  IsBounded w = length w.cache ≤ caps

  evict_shorter :
      (l : List Cloned) (w : World S)
      → w.cache ≡ l
      → null l ≡ false
      → length (evict_from git remove_all now caps l w).cache < length w.cache
  evict_shorter [] w e h = absurd cc
  evict_shorter (c ∷ l) w e h =
      shorter (has_key (oldest c l).key) w.cache
        (subst (λ x. any (has_key (oldest c l).key) x ≡ true) (sym e) (oldest_among c l))

  -- Cached clones are dropped one after the other while the cache is full, each time one that was used
  -- no later than any other, until there is room for one more.
  pub data IsEvicted : World S → World S → Type 0 where
    enough : (w : World S) → length w.cache < caps → IsEvicted w w
    dropped :
        (c : Cloned) (w after : World S)
        → caps ≤ length w.cache
        → Any (λ d. d ≡ c) w.cache
        → all (λ d. leb c.last d.last) w.cache ≡ true
        → IsEvicted (drop_clone git remove_all now caps c w) after
        → IsEvicted w after

  drop_oldest :
      (l : List Cloned) (w after : World S)
      → w.cache ≡ l
      → null l ≡ false
      → caps ≤ length w.cache
      → IsEvicted (evict_from git remove_all now caps l w) after
      → IsEvicted w after
  drop_oldest [] w after e h full rest = absurd cc
  drop_oldest (c ∷ l) w after e h full rest =
      dropped (oldest c l) w after full
        (subst (Any (λ d. d ≡ oldest c l)) (sym e) (oldest-IsCached c l))
        (subst (λ x. all (λ d. leb (oldest c l).last d.last) x ≡ true) (sym e) (oldest_least c l))
        rest

  evict-IsEvicted :
      (fuel : ℕ) (w : World S)
      → length w.cache ≤ fuel
      → IsEvicted w (evict git remove_all now caps fuel w)
  unfolding evict
  evict-IsEvicted zero w h = enough w (omega (arith, h, room))
  evict-IsEvicted (suc fuel) w h =
      if_elim (IsEvicted w) (leb caps (length w.cache) && not (null w.cache)) _ w
        (λ full. drop_oldest w.cache w _ refl (some_clone w.cache full) (is_full w.cache full) (
          evict-IsEvicted fuel (evict_from git remove_all now caps w.cache w)
            (omega (arith, h, evict_shorter w.cache w refl (some_clone w.cache full)))))
        (λ fits. enough w (fits_in w.cache fits))
    where
      some_clone : (l : List Cloned) → (leb caps (length l) && not (null l)) ≡ true → null l ≡ false
      some_clone l f = ground (arith, f)

      is_full : (l : List Cloned) → (leb caps (length l) && not (null l)) ≡ true → caps ≤ length l
      is_full l f = ground (arith, f)

      fits_in : (l : List Cloned) → (leb caps (length l) && not (null l)) ≡ false → length l < caps
      fits_in [] f = omega (arith, room)
      fits_in (c ∷ l) f = ground (arith, f)

  -- For a capacity above 0, the loop of `evictLocked` ends: its fuel, one unit for each clone, is
  -- enough. It drops clones while the cache is full, each one cached and used no later than any other
  -- that is cached, and stops as soon as there is room for one more.
  pub evict_locked-IsEvicted : (w : World S) → IsEvicted w (evict_locked git remove_all now caps w)
  unfolding evict_locked
  evict_locked-IsEvicted w = evict-IsEvicted (length w.cache) w (omega arith)

  room_behind : {w after : World S} → IsEvicted w after → length after.cache < caps
  room_behind (enough w h) = h
  room_behind (dropped c w after full there least rest) = room_behind rest

  on_git-Keeps :
      {A : Type 0} (m : Exec GitError S A) → Keeps IsBounded (on_git git remove_all now caps m)
  on_git-Keeps m = record { at = λ w b. b }

  keep_clone-Keeps :
      (o : Options) (dir : Text) (r : Result GitError (Unit {0}))
      → Keeps IsBounded (keep_clone git remove_all now caps o dir r)
  keep_clone-Keeps o dir (ok _) = record {
    at = λ w b. omega (
      arith,
      room_behind (evict_locked-IsEvicted w),
      length-append (evict_locked git remove_all now caps w).cache (_ ∷ []),
    );
  }
  keep_clone-Keeps o dir (err e) = record { at = λ w b. b }

  clone_new-Keeps : (o : Options) → Keeps IsBounded (clone_new git remove_all now caps o)
  unfolding clone_new
  clone_new-Keeps o = Keeps-bind _ _ (on_git-Keeps (git []).new_dir) λ dir.
      Keeps-bind _ _ (Keeps-attempt _ (on_git-Keeps ((git dir).clone_branch o o.branch)))
        λ r. keep_clone-Keeps o dir r

  clone_refreshed-Keeps :
      (o : Options) (c : Cloned) (r : Result GitError (Unit {0}))
      → Keeps IsBounded (clone_refreshed git remove_all now caps o c r)
  clone_refreshed-Keeps o c (ok _) = record {
    at = λ w b.
        omega
          (arith, b, length-map (touched git remove_all now caps c.key (now w.outside)) w.cache);
  }
  clone_refreshed-Keeps o c (err e) = record {
    at = λ w b.
        (clone_new-Keeps o).at (drop_clone git remove_all now caps c w)
          (omega (arith, b, length-delete (has_key c.key) w.cache));
  }

  clone_found-Keeps :
      (o : Options) (found : Option Cloned)
      → Keeps IsBounded (clone_found git remove_all now caps o found)
  clone_found-Keeps o none = clone_new-Keeps o
  clone_found-Keeps o (some c) =
      Keeps-bind _ _ (Keeps-attempt _ (on_git-Keeps (refresh git remove_all now caps c)))
        (clone_refreshed-Keeps o c)

  -- For a capacity above 0, `clone` keeps the cache within its capacity on every branch, where a
  -- clone is refreshed, replaced, made or not made.
  pub clone-IsBounded : (o : Options) → Keeps IsBounded (clone git remove_all now caps o)
  unfolding clone
  clone-IsBounded o = record {
    at = λ w b. (clone_found-Keeps o (first (has_key (key_of o)) w.cache)).at w b;
  }
