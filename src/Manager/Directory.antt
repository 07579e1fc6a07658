-- ===== src/Manager/Directory.antt =====
-- What the registry promises, apart from how it is stored: the robots by their ids, in no order, and
-- the current id. The counter, the hub and the robots that were removed do not show.
use rom_go_app.Prelude.{
  ℕ, ◌≡◌, ◌≢◌, ◌⊎◌, String, Option, none, some, List, [], ◌∷◌, Float64, if◌then◌else◌, ◌=?◌,
}
use mathlib.Core.Option as Option
use rom_go_app.Rosbridge.Client.{Network}
use rom_go_app.Robot.{Robot, new_robot, on_callback, on_connected, on_disconnected}
use rom_go_app.Manager.{Manager, get_robot, get_current_robot_id}
use rom_go_app.Manager.Steps.{Op, adds, removes, switches, clears, delivers, connects, disconnects}

pub record Directory (F : Type 0) : Type 0 where
  pub robots : String → Option (Robot F)
  pub current_id : String

module _ {F : Type 0} where
  abbrev pub view : Manager F → Directory F
  view m = record { robots = λ k. get_robot k m; current_id = get_current_robot_id m }

  abbrev pub nobody : Directory F
  nobody = record { robots = λ _. none; current_id = "" }

  -- `d` has these robots and this current id.
  pub record Shows (d : Directory F) (robots : String → Option (Robot F)) (current_id : String)
      : Type 0 where
    pub shown : (k : String) → d.robots k ≡ robots k
    pub chosen : d.current_id ≡ current_id

  abbrev pub Unchanged : Directory F → Directory F → Type 0
  Unchanged d d' = Shows d' d.robots d.current_id

  abbrev pub AddressTaken : String → ℕ → Directory F → Type 0
  AddressTaken ip port d =
      (k : String) × (r : Robot F) × (d.robots k ≡ some r) × (r.ip ≡ ip) × (r.port ≡ port)

  abbrev pub with_robot : String → Robot F → Directory F → String → Option (Robot F)
  with_robot id r d k = if id =? k then some r else d.robots k

  abbrev pub without : String → Directory F → String → Option (Robot F)
  without id d k = if id =? k then none else d.robots k

  abbrev pub changed : String → (Robot F → Robot F) → Directory F → String → Option (Robot F)
  changed id f d k = if id =? k then Option.map f (d.robots id) else d.robots k

  -- The current id after `id` went: the old one if it was another, else that of any robot left, or
  -- empty if none is.
  abbrev pub Chosen : String → Directory F → String → Type 0
  Chosen id d c =
      ((d.current_id ≢ id) × (c ≡ d.current_id))
      ⊎ ((d.current_id ≡ id) × ((k : String) → without id d k ≡ none) × (c ≡ ""))
      ⊎ ((d.current_id ≡ id) × ((s : Robot F) × (without id d c ≡ some s)))

module _ {F : Type 0} (fl : Float64 F) (net : Network F) where
  -- What each operation makes of a directory `d`.
  abbrev pub Promises : Op F → Directory F → Directory F → Type 0
  Promises (adds ns name ip port) d d' =
      (AddressTaken ip port d × Unchanged d d')
      ⊎ ((¬ AddressTaken ip port d)
          × ((id : String) × (id ≢ "")
              × (d.robots id ≡ none)
              × Shows d' (with_robot id (new_robot fl id ns name ip port) d)
                  (if d.current_id =? "" then id else d.current_id)))
  Promises (removes stop_taken choice id) d d' =
      ((d.robots id ≡ none) × Unchanged d d')
      ⊎ ((r : Robot F) × (d.robots id ≡ some r)
          × Chosen id d d'.current_id
          × Shows d' (without id d) d'.current_id)
  Promises (switches id) d d' =
      ((d.robots id ≡ none) × Unchanged d d')
      ⊎ ((r : Robot F) × (d.robots id ≡ some r) × Shows d' d.robots id)
  Promises (clears stop_taken) d d' = Shows d' (λ _. none) ""
  Promises (delivers now id callback) d d' =
      Shows d' (changed id (on_callback now callback) d) d.current_id
  Promises (connects id) d d' = Shows d' (changed id (on_connected net) d) d.current_id
  Promises (disconnects id) d d' = Shows d' (changed id on_disconnected d) d.current_id

  -- One directory leads to another by the operations, in their order.
  abbrev pub Leads : List (Op F) → Directory F → Directory F → Type 0
  Leads [] d d' = Unchanged d d'
  Leads (op ∷ ops) d d'' = (d' : Directory F) × Promises op d d' × Leads ops d' d''
