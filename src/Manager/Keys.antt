-- ===== src/Manager/Keys.antt =====
-- No id stands twice in the registry.
use rom_go_app.Prelude.{
  ℕ, ◌&&◌, ◌==◌, ==_iff, eq_refl, Bool, ◌≡◌, refl, String, true, none, some, List, [], ◌∷◌, Float64,
  ◌=?◌, get, put, delete, get-put, get-delete, Bool-cases, Option-cases, eq_iff, arith, inl, inr,
}
use rom_go_app.Rosbridge.Client.{Network}
use rom_go_app.Robot.{Robot}
use rom_go_app.Manager.{
  Manager, has_address, add_robot, remove_robot, switch_robot, clear_all, update_robot, deliver,
  robot_connected, robot_disconnected,
}
use rom_go_app.Manager.Steps.{
  Op, adds, removes, switches, clears, delivers, connects, disconnects, step, run,
}

module _ {V : Type 0} where
  abbrev pub Apart : List (String × V) → Type 0
  Apart [] = Unit
  Apart ((k, v) ∷ m) = (get k m ≡ none) × Apart m

  put-Apart : (k : String) (v : V) (m : List (String × V)) → Apart m → Apart (put k v m)
  put-Apart k v [] a = (refl, tt)
  put-Apart k v ((j, w) ∷ m) (new, a) = elim (Bool-cases (j =? k)) [
    | inl same ↦ rw same (ground (arith, eq_iff j k), a)
    | inr other ↦
        rw other (ground (arith, get-put k j v m, eq_iff j k, eq_iff k j), put-Apart k v m a)
  ]

  delete-Apart : (k : String) (m : List (String × V)) → Apart m → Apart (delete k m)
  delete-Apart k [] a = tt
  delete-Apart k ((j, w) ∷ m) (new, a) = elim (Bool-cases (j =? k)) [
    | inl same ↦ rw same (delete-Apart k m a)
    | inr other ↦ rw other (ground (arith, get-delete k j m), delete-Apart k m a)
  ]

module _ {F : Type 0} where
  -- Where the search for an address succeeds, a robot that can be looked up has it.
  pub has_address-some :
      (ip : String) (port : ℕ) (robots : List (String × Robot F))
      → Apart robots
      → has_address ip port robots ≡ true
      → (k : String) × (r : Robot F) × (get k robots ≡ some r) × (r.ip ≡ ip) × (r.port ≡ port)
  unfolding has_address
  has_address-some ip port [] a h = cc
  has_address-some ip port ((k, r) ∷ robots) (new, a) h =
      elim (Bool-cases ((r.ip =? ip) && (r.port == port))) [
        | inl here ↦ (
          k,
          r,
          ground (arith, eq_refl k),
          ground (arith, eq_iff r.ip ip),
          ground (arith, ==_iff r.port port),
        )
        | inr away ↦
            let (j, s, e, same_ip, same_port) = has_address-some ip port robots a (ground arith) in
            (j, s, ground (arith, eq_iff k j), same_ip, same_port)
      ]

module _ {F : Type 0} (fl : Float64 F) (net : Network F) where
  update_robot-Apart :
      (id : String) (f : Robot F → Robot F) (m : Manager F)
      → Apart m.robots
      → Apart (update_robot id f m).robots
  unfolding update_robot
  update_robot-Apart id f m a = elim (Option-cases (get id m.robots)) [
    | inl e ↦ rw (e, update_robot) a
    | inr (r, e) ↦ rw (e, update_robot) (put-Apart id (f r) m.robots a)
  ]

  add_robot-Apart :
      (ns name ip : String) (port : ℕ) (m : Manager F)
      → Apart m.robots
      → Apart (add_robot fl ns name ip port m).0.robots
  unfolding add_robot
  add_robot-Apart ns name ip port m a = elim (Bool-cases (has_address ip port m.robots)) [
    | inl taken ↦ rw (taken, add_robot) a
    | inr free ↦ rw (free, add_robot) (put-Apart _ _ m.robots a)
  ]

  remove_robot-Apart :
      (stop_taken : Bool) (choice : ℕ) (id : String) (m : Manager F)
      → Apart m.robots
      → Apart (remove_robot net stop_taken choice id m).0.robots
  unfolding remove_robot
  remove_robot-Apart stop_taken choice id m a = elim (Option-cases (get id m.robots)) [
    | inl e ↦ rw (e, remove_robot) a
    | inr (r, e) ↦ rw (e, remove_robot) (delete-Apart id m.robots a)
  ]

  switch_robot-Apart :
      (id : String) (m : Manager F) → Apart m.robots → Apart (switch_robot id m).0.robots
  unfolding switch_robot
  switch_robot-Apart id m a = elim (Option-cases (get id m.robots)) [
    | inl e ↦ rw (e, switch_robot) a
    | inr (r, e) ↦ rw (e, switch_robot) a
  ]

  pub step-Apart : (m : Manager F) (op : Op F) → Apart m.robots → Apart (step fl net m op).robots
  unfolding step clear_all deliver robot_connected robot_disconnected
  step-Apart m (adds ns name ip port) a = add_robot-Apart ns name ip port m a
  step-Apart m (removes stop_taken choice id) a = remove_robot-Apart stop_taken choice id m a
  step-Apart m (switches id) a = switch_robot-Apart id m a
  step-Apart m (clears stop_taken) a = tt
  step-Apart m (delivers now id callback) a = update_robot-Apart id _ m a
  step-Apart m (connects id) a = update_robot-Apart id _ m a
  step-Apart m (disconnects id) a = update_robot-Apart id _ m a

  pub run-Apart :
      (m : Manager F) (ops : List (Op F)) → Apart m.robots → Apart (run fl net m ops).robots
  unfolding run
  run-Apart m [] a = a
  run-Apart m (op ∷ ops) a = run-Apart (step fl net m op) ops (step-Apart m op a)
