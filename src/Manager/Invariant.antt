-- ===== src/Manager/Invariant.antt =====
-- What holds of the registry between two operations.
use rom_go_app.Prelude.{
  ℕ, zero, suc, ◌+◌, ◌<◌, ◌≡◌, ◌≢◌, refl, sym, ap, ◌∙◌, ◌⊎◌, inl, inr, String, true, false, none,
  some, List, [], ◌∷◌, if◌then◌else◌, ◌=?◌, get, put, delete, get-put-some, get-put_self,
  get-put_ne, get-delete-some, get-delete_ne, sprint_int, int_half, itoa_injective, itoa-ne-nil,
  itoa, Bool-cases, Option-cases, List-cases, eq_iff, eq_refl, arith,
}
use rom_go_app.Robot.{Robot}
use rom_go_app.Manager.{Manager, new_manager, has_address, range_first}

-- The ids are numerals of counters already used; a robot stands under its own id; no two robots have
-- one address; and the current id is that of a robot, or empty if there is none.
pub record IsRegistry {F : Type 0} (robots : List (String × Robot F)) (current_id : String)
    (next_id : ℕ) : Type 0 where
  pub numbered :
      (k : String) (r : Robot F)
      → get k robots ≡ some r
      → (n : ℕ) × (k ≡ sprint_int n) × (n < next_id)
  pub keyed : (k : String) (r : Robot F) → get k robots ≡ some r → r.id ≡ k
  pub apart :
      (j k : String) (r s : Robot F)
      → get j robots ≡ some r
      → get k robots ≡ some s
      → r.ip ≡ s.ip
      → r.port ≡ s.port
      → j ≡ k
  pub current :
      ((robots ≡ []) × (current_id ≡ "")) ⊎ ((r : Robot F) × (get current_id robots ≡ some r))

abbrev pub Registry : {F : Type 0} → Manager F → Type 0
Registry m = IsRegistry m.robots m.current_id m.next_id

sprint_small : (n : ℕ) → n < int_half → sprint_int n ≡ itoa n
unfolding sprint_int
sprint_small n h = ground arith

-- The ids that the counter gives out differ.
pub sprint_int-injective :
    (m n : ℕ) → m < int_half → n < int_half → sprint_int m ≡ sprint_int n → m ≡ n
sprint_int-injective m n h k e = itoa_injective m n (sym (sprint_small m h) ∙ e ∙ sprint_small n k)

pub sprint_int-ne-nil : (n : ℕ) → n < int_half → sprint_int n ≢ ""
sprint_int-ne-nil n h = rw (sprint_small n h) (itoa-ne-nil n)

module _ {F : Type 0} where
  -- The search for the address finds it exactly if a robot has it.
  pub has_address-true :
      (ip : String) (port : ℕ) (robots : List (String × Robot F)) (k : String) (r : Robot F)
      → get k robots ≡ some r
      → r.ip ≡ ip
      → r.port ≡ port
      → has_address ip port robots ≡ true
  unfolding has_address
  has_address-true ip port [] k r g e f = cc
  has_address-true ip port ((j, s) ∷ robots) k r g e f =
      ground (arith, eq_iff s.ip ip, has_address-true ip port robots k r)

  -- The first key of a range over a registry that is not empty is a key of it.
  pub range_first_lem :
      (choice : ℕ) (e : String × Robot F) (robots : List (String × Robot F))
      → (r : Robot F) × (get (range_first choice (e ∷ robots)) (e ∷ robots) ≡ some r)
  unfolding range_first
  range_first_lem zero (k, r) robots = (r, ground (arith, eq_refl k))
  range_first_lem (suc n) (k, r) [] = (r, ground (arith, eq_refl k))
  range_first_lem (suc n) (k, r) (e ∷ robots) =
      let (s, found) = range_first_lem n e robots in
      elim (Bool-cases (k =? range_first n (e ∷ robots))) [
        | inl same ↦ (r, rw same refl)
        | inr other ↦ (s, rw other found)
      ]

  pub fresh_id :
      (m : Manager F)
      → Registry m
      → m.next_id < int_half
      → get (sprint_int m.next_id) m.robots ≡ none
  fresh_id m v h = elim (Option-cases (get (sprint_int m.next_id) m.robots)) [
    | inl e ↦ e
    | inr (r, e) ↦
        let (n, same, lt) = v.numbered _ r e in
        absurd (omega (arith, sprint_int-injective m.next_id n h (omega arith) same))
  ]

  pub new_manager-Registry : Registry (new_manager {F = F})
  unfolding new_manager
  new_manager-Registry = record {
    numbered = λ k r e. cc;
    keyed = λ k r e. cc;
    apart = λ j k r s e f p q. cc;
    current = inl (refl, refl);
  }

  address_taken :
      (robots : List (String × Robot F)) (r s : Robot F) (k : String)
      → has_address r.ip r.port robots ≡ false
      → get k robots ≡ some s
      → s.ip ≡ r.ip
      → s.port ≡ r.port
      → ⊥
  address_taken robots r s k free e p q = cc (has_address-true r.ip r.port robots k s e p q)

  -- A robot that is put under a fresh id with an address that no robot has.
  pub put_robot-IsRegistry :
      (robots : List (String × Robot F)) (current_id : String) (n : ℕ) (id : String) (r : Robot F)
      → IsRegistry robots current_id n
      → id ≡ sprint_int n
      → id ≢ ""
      → get id robots ≡ none
      → r.id ≡ id
      → has_address r.ip r.port robots ≡ false
      → IsRegistry (put id r robots) (if current_id =? "" then id else current_id) (n + 1)
  put_robot-IsRegistry robots current_id n id r v numeral named fresh own free = record {
    numbered = λ k s e. elim (get-put-some id k r robots e) [
      | inl (same, _) ↦ (n, sym same ∙ numeral, omega arith)
      | inr (_, old) ↦ let (i, eq, lt) = v.numbered k s old in (i, eq, omega arith)
    ];
    keyed = λ k s e. elim (get-put-some id k r robots e) [
      | inl (same, new) ↦ ap (λ (x : Robot F). x.id) (sym new) ∙ own ∙ same
      | inr (_, old) ↦ v.keyed k s old
    ];
    apart = λ j k s t e f p q. elim (get-put-some id j r robots e) [
      | inl (at_j, r_s) ↦ elim (get-put-some id k r robots f) [
        | inl (at_k, _) ↦ sym at_j ∙ at_k
        | inr (_, old) ↦ absurd (
            address_taken robots r t k free old (sym p ∙ ap (λ (x : Robot F). x.ip) (sym r_s))
              (sym q ∙ ap (λ (x : Robot F). x.port) (sym r_s)))
      ]
      | inr (_, old) ↦ elim (get-put-some id k r robots f) [
        | inl (_, r_t) ↦ absurd (
            address_taken robots r s j free old (p ∙ ap (λ (x : Robot F). x.ip) (sym r_t))
              (q ∙ ap (λ (x : Robot F). x.port) (sym r_t)))
        | inr (_, old') ↦ v.apart j k s t old old' p q
      ]
    ];
    current = inr (elim (Bool-cases (current_id =? "")) [
      | inl none_yet ↦ (r, rw none_yet (get-put_self id r robots))
      | inr some_robot ↦ elim v.current [
        | inl (_, empty) ↦ absurd (ground (arith, eq_iff current_id ""))
        | inr (s, e) ↦ (
          s,
          rw some_robot (
              get-put_ne id current_id r robots
                (λ same. cc (fresh, e, ap (λ (k : String). get k robots) same))
              ∙ e),
        )
      ]
    ]);
  }

  pub delete_robot-IsRegistry :
      (robots : List (String × Robot F)) (current_id : String) (n choice : ℕ) (id : String)
      → IsRegistry robots current_id n
      → IsRegistry
          (delete id robots)
          (if current_id =? id then range_first choice (delete id robots) else current_id)
          n
  unfolding range_first
  delete_robot-IsRegistry robots current_id n choice id v = record {
    numbered = λ k r e. v.numbered k r (get-delete-some id k robots e).1;
    keyed = λ k r e. v.keyed k r (get-delete-some id k robots e).1;
    apart = λ j k r s e f.
        v.apart j k r s (get-delete-some id j robots e).1 (get-delete-some id k robots f).1;
    current = elim (Bool-cases (current_id =? id)) [
      | inl gone ↦ rw gone (elim (List-cases (delete id robots)) [
        | inl none_left ↦ rw none_left (inl (refl, refl))
        | inr (e, rest, left) ↦ rw left (inr (range_first_lem choice e rest))
      ])
      | inr stays ↦ rw stays (elim v.current [
        | inl (none_there, empty) ↦ inl (rw none_there refl, empty)
        | inr (r, e) ↦
            inr (r, get-delete_ne id current_id robots (ground (arith, eq_iff current_id id)) ∙ e)
      ])
    ];
  }
