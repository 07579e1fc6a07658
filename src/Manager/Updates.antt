-- ===== src/Manager/Updates.antt =====
-- Changes of one robot, as its callbacks and the handlers make them, and the invariant.
use rom_go_app.Prelude.{
  ℕ, ◌≡◌, refl, sym, ap, ◌∙◌, inl, inr, String, some, List, ◌=?◌, get, put, get-put, get-put-some,
  Bool-cases, Option-cases, arith,
}
use rom_go_app.Robot.{Robot}
use rom_go_app.Manager.{Manager, update_robot}
use rom_go_app.Manager.Invariant.{IsRegistry, Registry}

module _ {F : Type 0} where
  -- A change of a robot that keeps its id and its address.
  abbrev pub KeepsIdentity : (Robot F → Robot F) → Type 0
  KeepsIdentity f = (r : Robot F) → ((f r).id ≡ r.id) × ((f r).ip ≡ r.ip) × ((f r).port ≡ r.port)

  -- The robot that an updated registry has under a key, before the update.
  origin :
      (id k : String) (f : Robot F → Robot F) (robots : List (String × Robot F)) {r s : Robot F}
      → KeepsIdentity f
      → get id robots ≡ some r
      → get k (put id (f r) robots) ≡ some s
      → (t : Robot F) × (get k robots ≡ some t) × (s.id ≡ t.id) × (s.ip ≡ t.ip) × (s.port ≡ t.port)
  origin id k f robots {r} {s} same e g = elim (get-put-some id k (f r) robots g) [
    | inl (at_k, new) ↦ (
      r,
      ap (λ (j : String). get j robots) (sym at_k) ∙ e,
      ap (λ (x : Robot F). x.id) (sym new) ∙ (same r).0,
      ap (λ (x : Robot F). x.ip) (sym new) ∙ (same r).1,
      ap (λ (x : Robot F). x.port) (sym new) ∙ (same r).2,
    )
    | inr (_, old) ↦ (s, old, refl, refl, refl)
  ]

  put_same-IsRegistry :
      (id : String) (f : Robot F → Robot F) (robots : List (String × Robot F)) (r : Robot F)
      (current_id : String) (n : ℕ)
      → KeepsIdentity f
      → get id robots ≡ some r
      → IsRegistry robots current_id n
      → IsRegistry (put id (f r) robots) current_id n
  put_same-IsRegistry id f robots r current_id n same e v = record {
    numbered = λ k s g. let (t, old, _, _, _) = origin id k f robots same e g in v.numbered k t old;
    keyed = λ k s g. let (t, old, i, _, _) = origin id k f robots same e g in i ∙ v.keyed k t old;
    apart = λ j k s t g h p q.
        let (s', g', _, ip, port) = origin id j f robots same e g in
        let (t', h', _, ip', port') = origin id k f robots same e h in
        v.apart j k s' t' g' h' (sym ip ∙ p ∙ ip') (sym port ∙ q ∙ port');
    current = elim v.current [
      | inl (none_there, _) ↦ cc (e, ap (λ (m : List (String × Robot F)). get id m) none_there)
      | inr (s, g) ↦ inr (elim (Bool-cases (id =? current_id)) [
        | inl here ↦ (f r, ground (arith, get-put id current_id (f r) robots))
        | inr away ↦ (s, ground (arith, get-put id current_id (f r) robots))
      ])
    ];
  }

  pub update_robot-Registry :
      (id : String) (f : Robot F → Robot F) (m : Manager F)
      → KeepsIdentity f
      → Registry m
      → Registry (update_robot id f m)
  unfolding update_robot
  update_robot-Registry id f m same v = elim (Option-cases (get id m.robots)) [
    | inl e ↦ rw (e, update_robot) v
    | inr (r, e) ↦ rw (e, update_robot) (put_same-IsRegistry id f m.robots r _ _ same e v)
  ]
