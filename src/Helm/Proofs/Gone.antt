-- ===== src/Helm/Proofs/Gone.antt =====
-- `Uninstall` of internal/helmmgr/helmmgr.go leaves nothing of the release.
use workspace_gateway.Base.{
  ℕ, Bool, true, false, ◌||◌, not, List, [], ◌∷◌, Option, none, some, ◌≡◌, refl, sym, subst, arith,
  any, all, keep, Text, text_eq, text_eq_refl, all_weaken, all-keep,
}
use workspace_gateway.Base.Leaves.{
  Leaves, Leaves-pure, Leaves-bind, Leaves-behind, Leaves-weaken, Leaves-of_Keeps,
}
use workspace_gateway.Helm.Api.{ConfigMap, Release, of_release, MapsApi, IsMapsApi, Engine}
use workspace_gateway.Helm.Proofs.Bounds.{delete_name-Leaves}
use workspace_gateway.Helm.Proofs.Keeping.{OnMaps, delete_one-Keeps}
use workspace_gateway.Helm.Proofs.Pruned.{list_maps-Leaves, found_among}
use workspace_gateway.Helm.Records.{cm_name}
use workspace_gateway.Helm.Releases.{
  get, delete_names, delete_release_state, uninstall_found, uninstall,
}

module _ {S : Type 0} (api : MapsApi S) (lawful : IsMapsApi api) (release : Text) where
  -- A ConfigMap of the release has one of the names that are still to be deleted.
  abbrev is_listed : List ConfigMap → ConfigMap → Bool
  is_listed ms m = not (of_release release m) || any (λ x. text_eq m.name x.name) ms

  abbrev AllListed : List ConfigMap → S → Type 0
  AllListed ms s = all (is_listed ms) (api.maps s) ≡ true

  delete_names-Leaves :
      (ms : List ConfigMap) → Leaves (AllListed ms) (λ _. AllListed []) (delete_names api ms)
  unfolding delete_names
  delete_names-Leaves [] = Leaves-pure tt λ s t. t
  delete_names-Leaves (x ∷ ms) =
      Leaves-bind (λ _. AllListed ms) _ _ _
        (delete_name-Leaves api lawful x.name (is_listed (x ∷ ms)) (is_listed ms)
          λ m other t. behind (of_release release m) (text_eq m.name x.name) _ other t)
        λ _. delete_names-Leaves ms
    where
      behind : (a b c : Bool) → b ≡ false → (not a || (b || c)) ≡ true → (not a || c) ≡ true
      behind a b c e t = ground (arith, e, t)

  all_listed : (l : List ConfigMap) → all (is_listed (keep (of_release release) l)) l ≡ true
  all_listed l =
      found_among (of_release release) (λ _. true) (λ m x. text_eq m.name x.name) l
        (λ m _ _. text_eq_refl m.name) (all_true l)
    where
      all_true : (l : List ConfigMap) → all (λ _. true) l ≡ true
      all_true [] = refl
      all_true (m ∷ l) = all_true l

  delete_release_state-Leaves :
      Leaves (OnMaps api (λ _. Unit)) (λ _. AllListed []) (delete_release_state api release)
  unfolding delete_release_state
  delete_release_state-Leaves =
      Leaves-bind _ _ _ _ (list_maps-Leaves api lawful (λ _. Unit) (of_release release)) λ ms.
        Leaves-bind (λ _. AllListed []) _ _ _
          (Leaves-weaken _ (λ _. AllListed []) _ _
            (λ s (_, e).
              subst (λ l. all (is_listed l) (api.maps s) ≡ true) (sym e) (all_listed (api.maps s)))
            (λ _ _ t. t) (delete_names-Leaves ms))
          λ _. Leaves-of_Keeps _ (
            delete_one-Keeps api lawful (λ l. all (is_listed []) l ≡ true) (cm_name release)
              λ l. all-keep (is_listed []) _ l)

  module _ {Doc : Type 0} (engine : Engine S Doc) (namespace : Text) (history_max : ℕ) where
    -- No ConfigMap carries the label of the release.
    abbrev pub IsGone : S → Type 0
    IsGone s = all (λ m. not (of_release release m)) (api.maps s) ≡ true

    uninstall_found-IsGone :
        (cur : Option Release)
        → Leaves
            (OnMaps api (λ _. Unit))
            (λ removed s. removed ≡ true → IsGone s)
            (uninstall_found api engine namespace history_max release cur)
    uninstall_found-IsGone none = Leaves-pure false λ s _ e. absurd cc
    uninstall_found-IsGone (some cur) =
        Leaves-behind _ _ _ (record { at = λ _ u. u })
          λ _. Leaves-bind _ _ _ _ delete_release_state-Leaves λ _. Leaves-pure true λ s t _.
            all_weaken (is_listed []) _ (api.maps s) (λ m h. settled (of_release release m) h) t
      where
        settled : (a : Bool) → (not a || false) ≡ true → not a ≡ true
        settled a h = ground (arith, h)

    -- Whatever state an `Uninstall` starts in: where it returns true, no ConfigMap with the label of
    -- the release is left, neither the head nor a revision body.
    pub uninstall-IsGone :
        Leaves
          (OnMaps api (λ _. Unit))
          (λ removed s. removed ≡ true → IsGone s)
          (uninstall api engine namespace history_max release)
    unfolding uninstall
    uninstall-IsGone =
        Leaves-behind _ (get api engine namespace history_max release) _ (record { at = λ _ u. u })
          uninstall_found-IsGone
