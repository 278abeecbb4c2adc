-- ===== src/Hetzner/Volumes/Kept.antt =====
-- What `cleanupVolumes` of pkg/providers/cluster/hetzner/cleanup.go leaves alone.
use nebari_infrastructure_co.Prelude.{
  ℕ, String, ◌≡◌, refl, ap, ◌∙◌, ◌⊎◌, inl, inr, Bool, true, false, ◌||◌, Option, none, some, List,
  [], ◌∷◌, arith, ◌==◌, nat_eq, nat_eq_iff, Bool-cases, All, Result, ok, err, fail_if, ok-injective,
}
use mathlib.Core.List.{Memᴰ}
use nebari_infrastructure_co.Prelude.Int.{ℤ}
use nebari_infrastructure_co.Prelude.State.{◌>>=◌, ◌>>◌, lift, wrap_call}
use nebari_infrastructure_co.Prelude.Yields.{
  Yields, Anything, >>=-Yields, wrap_call-Yields, lift-Yields, All-of_Mem,
}
use nebari_infrastructure_co.Hetzner.Volumes.{
  Volume, Server, Request, list_volumes, get_server, post_detach, remove_volume, Response, Service,
  no_token, not_sent, list_failed, server_failed, detach_failed, delete_failed, is_persistent,
  is_running, decoded, Sweep, request, expect, is_200, list_csi_volumes, server_answer, running_of,
  is_server_running, detach_volume, delete_volume, rename, for_each, delete_one, detach_and_delete,
  unless_running, clean_one, cleanup_volumes,
}

module _ (service : Service) where
  -- A volume that the service listed.
  abbrev pub IsListed : Volume → Type 0
  IsListed v =
      (s : service.State) × (r : Response) × (vs : List Volume) × ((service.send list_volumes s).0
        ≡ ok r)
      × (r.status ≡ 200)
      × (r.volumes ≡ ok vs)
      × Memᴰ v vs

  -- The service answered that there is no such server, or one that does not run.
  abbrev pub IsDown : ℤ → Type 0
  IsDown id =
      (s : service.State) × (r : Response) × ((service.send (get_server id) s).0 ≡ ok r)
      × ((r.status ≡ 404)
          ⊎ ((r.status ≡ 200) × ((o : Option Server) × (r.server ≡ ok o) × (is_running o ≡ false))))

  -- Without the label `persist=true`, and on no server or one that is down.
  abbrev pub IsLoose : Volume → Type 0
  IsLoose v =
      IsListed v
      × (is_persistent v ≡ false)
      × ((v.server ≡ none) ⊎ ((id : ℤ) × (v.server ≡ some id) × IsDown id))

  -- The property outlives the requests that look, and those that detach or delete a loose volume.
  pub record IsKept (P : service.State → Type 0) : Type 0 where
    pub list : (s : service.State) → P s → P (service.send list_volumes s).1
    pub look : (id : ℤ) (s : service.State) → P s → P (service.send (get_server id) s).1
    pub detach :
        (v : Volume)
        → IsLoose v
        → (s : service.State) → P s
        → P (service.send (post_detach v.id) s).1
    pub delete :
        (v : Volume)
        → IsLoose v
        → (s : service.State) → P s
        → P (service.send (remove_volume v.id) s).1

  module _ (P : service.State → Type 0) (K : IsKept P) where
    abbrev Harmless : Sweep service (Unit {0}) → Type 0
    Harmless m = Yields P Anything m

    nothing-Harmless : Harmless (lift (ok tt))
    nothing-Harmless s kept = (kept, λ a h. tt)

    abbrev Answers : Request → Response → Type 0
    Answers q r = (s : service.State) × ((service.send q s).0 ≡ ok r)

    request-Yields :
        (q : Request)
        → ((s : service.State) → P s → P (service.send q s).1)
        → Yields P (Answers q) (request service q)
    request-Yields q h =
        wrap_call-Yields P not_sent (service.send q) (λ s kept. (h s kept, λ r given. (s, given)))

    expect-Yields :
        (good : ℕ → Bool) (r : Response)
        → Yields P (λ _. good r.status ≡ true) (expect service good r)
    expect-Yields good r = lift-Yields P _ (λ _ h. ground (arith))

    send-Harmless :
        (q : Request) (good : ℕ → Bool)
        → ((s : service.State) → P s → P (service.send q s).1)
        → Harmless (request service q >>= expect service good)
    send-Harmless q good h =
        >>=-Yields P (request service q) (expect service good) (request-Yields q h)
          (λ r _ s kept. (kept, λ a k. tt))

    decoded-eq-ok : {A : Type 0} (r : Result String A) (a : A) → decoded r ≡ ok a → r ≡ ok a
    decoded-eq-ok (ok b) a h = cc
    decoded-eq-ok (err e) a h = absurd (cc)

    list_csi_volumes-Yields : Yields P (All IsListed) (list_csi_volumes service)
    unfolding list_csi_volumes
    list_csi_volumes-Yields =
        >>=-Yields P (request service list_volumes) _ (request-Yields list_volumes K.list)
          (λ r (s, answered).
            >>=-Yields P (expect service (is_200 service) r) _ (expect-Yields (is_200 service) r)
              (λ _ good. lift-Yields P (decoded r.volumes) (λ vs read.
                All-of_Mem IsListed vs (λ v m. (
                  s,
                  r,
                  vs,
                  answered,
                  (nat_eq_iff r.status 200).0 good,
                  decoded-eq-ok r.volumes vs read,
                  m,
                )))))

    server_answer-IsDown :
        (id : ℤ) (r : Response)
        → Answers (get_server id) r
        → server_answer service r ≡ ok false
        → IsDown id
    server_answer-IsDown id r (s, answered) h = elim (Bool-cases (nat_eq r.status 404)) [
      | inl missing ↦ (s, r, answered, inl ((nat_eq_iff r.status 404).0 missing))
      | inr other ↦ elim (Bool-cases (is_200 service r.status)) [
        | inr bad ↦ absurd (cc (rw (other, bad) at h))
        | inl good ↦
            let (o, read, down) = running_of_false r.server (rw (other, good) at h) in
            (s, r, answered, inr ((nat_eq_iff r.status 200).0 good, (o, read, down)))
      ]
    ]
      where
        running_of_false :
            (a : Result String (Option Server))
            → running_of service (decoded a) ≡ ok false
            → (o : Option Server) × (a ≡ ok o) × (is_running o ≡ false)
        running_of_false (ok o) k = (o, refl, ok-injective k)
        running_of_false (err e) k = absurd (cc)

    is_server_running-Yields :
        (id : ℤ) → Yields P (λ running. running ≡ false → IsDown id) (is_server_running service id)
    unfolding is_server_running
    is_server_running-Yields id =
        >>=-Yields P (request service (get_server id)) _
          (request-Yields (get_server id) (K.look id))
          (λ r answered.
            lift-Yields P (server_answer service r)
              (λ running h down. server_answer-IsDown id r answered (h ∙ ap ok down)))

    then-Harmless : (m k : Sweep service (Unit {0})) → Harmless m → Harmless k → Harmless (m >> k)
    then-Harmless m k first second = >>=-Yields P m (λ _. k) first (λ a t. second)

    delete_one-Harmless : (v : Volume) → IsLoose v → Harmless (delete_one service v)
    unfolding delete_volume
    delete_one-Harmless v loose =
        wrap_call-Yields P (delete_failed v.id v.name) (delete_volume service v.id) (
          send-Harmless (remove_volume v.id) (λ n. nat_eq n 204 || nat_eq n 404) (K.delete v loose))

    detach_and_delete-Harmless :
        (v : Volume) (running : Bool)
        → (running ≡ false → IsLoose v)
        → Harmless (detach_and_delete service v running)
    unfolding detach_volume
    detach_and_delete-Harmless v true h = nothing-Harmless
    detach_and_delete-Harmless v false h =
        then-Harmless (rename service (detach_failed v.id v.name) (detach_volume service v.id))
          (delete_one service v)
          (wrap_call-Yields P (detach_failed v.id v.name) (detach_volume service v.id) (
            send-Harmless (post_detach v.id) (λ n. nat_eq n 200 || nat_eq n 409)
              (K.detach v (h refl))))
          (delete_one-Harmless v (h refl))

    unless_running-Harmless :
        (v : Volume) (server : Option ℤ)
        → IsListed v
        → is_persistent v ≡ false
        → v.server ≡ server
        → Harmless (unless_running service v server)
    unless_running-Harmless v none listed not_kept alone =
        delete_one-Harmless v (listed, not_kept, inl alone)
    unless_running-Harmless v (some id) listed not_kept attached =
        >>=-Yields P (wrap_call (server_failed id v.id) (is_server_running service id)) _
          (wrap_call-Yields P (server_failed id v.id) (is_server_running service id)
            (is_server_running-Yields id))
          (λ running down.
            detach_and_delete-Harmless v running
              (λ stopped. (listed, not_kept, inr (id, attached, down stopped))))

    clean_one-Harmless : (v : Volume) → IsListed v → Harmless (clean_one service v)
    unfolding clean_one
    clean_one-Harmless v listed = elim (Bool-cases (is_persistent v)) [
      | inl kept ↦ rw (kept) nothing-Harmless
      | inr not_kept ↦ rw (not_kept) (unless_running-Harmless v v.server listed not_kept refl)
    ]

    for_each-Harmless :
        (vs : List Volume) → All IsListed vs → Harmless (for_each service (clean_one service) vs)
    unfolding for_each
    for_each-Harmless [] h = nothing-Harmless
    for_each-Harmless (v ∷ vs) (listed, h) =
        then-Harmless (clean_one service v) (for_each service (clean_one service) vs)
          (clean_one-Harmless v listed) (for_each-Harmless vs h)

    -- A property of the project that outlives the requests that look, and those that detach or delete a
    -- listed volume that has not the label `persist=true` and is on no server, or on one of which the
    -- service answered that it is not there or does not run, outlives the clean-up of the volumes, whether
    -- it ends with an error or not.
    pub cleanup_volumes-IsKept :
        (token : String) (s : service.State) → P s → P (cleanup_volumes service token s).1
    unfolding cleanup_volumes
    cleanup_volumes-IsKept token s kept =
        (then-Harmless (lift (fail_if (token == "") no_token))
          (wrap_call list_failed (list_csi_volumes service)
            >>= for_each service (clean_one service))
          (λ w k. (k, λ a h. tt))
          (>>=-Yields P (wrap_call list_failed (list_csi_volumes service)) _
            (wrap_call-Yields P list_failed (list_csi_volumes service) list_csi_volumes-Yields)
            (λ vs listed. for_each-Harmless vs listed))
          s kept).0
