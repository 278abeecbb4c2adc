-- ===== src/Witnesses/Volumes.antt =====
-- The theorems on the Hetzner provider's releases and volumes at sample inputs.
use nebari_infrastructure_co.Prelude.{
  ℕ, zero, suc, String, ◌≡◌, refl, sym, ap, ◌∙◌, subst, ◌↔◌, ◌⊎◌, inl, inr, Bool, true, false, none,
  some, List, [], ◌∷◌, Result, ok, ok-injective,
}
use mathlib.Core.List.{Memᴰ}
use mathlib.Core.List.Memᴰ
use nebari_infrastructure_co.Prelude.Int.{ℤ, pos}
use nebari_infrastructure_co.Prelude.Dict.{lookup}
use nebari_infrastructure_co.Prelude.Text.{has_part}
use nebari_infrastructure_co.Hetzner.K3s.{resolve_k3s_version}
use nebari_infrastructure_co.Hetzner.K3s.Names.{Names}
use nebari_infrastructure_co.Hetzner.K3s.Newest.{Newest, resolve_k3s_version_iff}
use nebari_infrastructure_co.Hetzner.Volumes.{
  Volume, Request, remove_volume, Response, Service, is_persistent, cleanup_volumes,
}
use nebari_infrastructure_co.Hetzner.Volumes.Kept.{IsLoose, IsKept, cleanup_volumes-IsKept}

abbrev releases : List String
releases = "v1.31.4+k3s1" ∷ "v1.32.0+k3s1" ∷ "v1.32.1+k3s1" ∷ "v1.32.2-rc1+k3s1" ∷ []

abbrev short : String
short = "1.32"

resolve_k3s_version_iff_example : (resolve_k3s_version short releases ≡ ok "v1.32.1+k3s1") ↔ (
    ((has_part "+k3s" short ≡ true) × (short ≡ "v1.32.1+k3s1"))
    ⊎ ((has_part "+k3s" short ≡ false)
        × ((prefix : String) × Names short prefix × Newest prefix "v1.32.1+k3s1" releases)))
resolve_k3s_version_iff_example = resolve_k3s_version_iff short releases "v1.32.1+k3s1"

abbrev kept_volume : Volume
kept_volume = record { id = pos 1; name = "data"; labels = ("persist", "true") ∷ []; server = none }

abbrev loose_volume : Volume
loose_volume = record { id = pos 2; name = "scratch"; labels = []; server = some (pos 7) }

abbrev answer : ℕ → Response
answer status = record {
  status = status;
  volumes = ok (kept_volume ∷ loose_volume ∷ []);
  server = ok none;
  load_balancers = ok [];
}

-- Whether the first volume is still there.
abbrev after_removal : ℤ → Bool → Bool
after_removal (pos (suc zero)) s = false
after_removal id s = s

abbrev send : Request → Bool → Result String Response × Bool
send (remove_volume id) s = (ok (answer 204), after_removal id s)
send q s = (ok (answer 200), s)

abbrev service : Service
service = record { State = Bool; send = send }

abbrev IsThere : Bool → Type 0
IsThere s = s ≡ true

persistent_first : is_persistent kept_volume ≡ true
unfolding lookup
persistent_first = refl

loose_id : (v : Volume) → IsLoose service v → pos 2 ≡ v.id
loose_id v ((s, r, vs, answered, good, read, m), not_kept, down) =
    let same = ok-injective (ap (λ x. x.volumes) (ok-injective answered) ∙ read) in
    elim (Memᴰ.cases_cons (subst (λ l. Memᴰ v l) (sym same) m)) [
      | inl first ↦
          absurd (cc (persistent_first, subst (λ w. is_persistent w ≡ false) first not_kept))
      | inr more ↦ elim (Memᴰ.cases_cons more) [
        | inl second ↦ ap (λ w. w.id) (sym second)
        | inr none_left ↦ absurd (Memᴰ.not-nil none_left)
      ]
    ]

send-IsThere : IsKept service IsThere
send-IsThere = record {
  list = λ s h. h;
  look = λ id s h. h;
  detach = λ v loose s h. h;
  delete = λ v loose s h. subst (λ id. IsThere (after_removal id s)) (loose_id v loose) h;
}

cleanup_volumes-IsKept_example : IsThere (cleanup_volumes service "token" true).1
cleanup_volumes-IsKept_example =
    cleanup_volumes-IsKept service IsThere send-IsThere "token" true refl
