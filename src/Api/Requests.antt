-- ===== src/Api/Requests.antt =====
-- What the requests on robots do to the registry.
use rom_go_app.Prelude.{
  ℕ, ◌+◌, ◌<◌, ◌≡◌, ◌≢◌, refl, String, Bool, ◌||◌, Option, none, some, Float64, ◌=?◌, arith,
  int_half, Bool-cases, Option-cases, inl, inr,
}
use rom_go_app.Rosbridge.Types.{HandshakeResponse}
use rom_go_app.Rosbridge.Codec.{Codec}
use rom_go_app.Rosbridge.Client.{Client, Dialer, Network, Error, Result, ok, err, connect}
use rom_go_app.Rosbridge.Client.Replies.{handshake, request_task, request_power_off, request_reboot}
use rom_go_app.Robot.{with_client, set_radius}
use rom_go_app.Manager.{Manager, add_robot}
use rom_go_app.Manager.Invariant.{Registry}
use rom_go_app.Manager.Updates.{KeepsIdentity, update_robot-Registry}
use rom_go_app.Manager.Registry.{add_robot-Registry, remove_robot-Registry, switch_robot-Registry}
use rom_go_app.Api.{
  success, AddRequest, Settings, port_of, add_robot_at, add_robot_request, remove_robot_request,
  switch_robot_request, learn_radius, shake_hands, settle, apply_settings, id_or_current, Request,
  adds, settles, removes, switches, sets, tasks, powers_off, reboots, serve, update_settings,
  request_task_of, power_off, reboot, task_request,
}

module _ {F : Type 0} where
  add_robot_at-refused :
      (fl : Float64 F) (ns name ip : String) (port : Option ℕ) (m : Manager F)
      → (add_robot_at fl ns name ip port m).1 ≢ success
      → (add_robot_at fl ns name ip port m).0 ≡ m
  unfolding add_robot_at add_robot
  add_robot_at-refused fl ns name ip none m n = refl
  add_robot_at-refused fl ns name ip (some port) m n = ground arith

  -- A request to add a robot that is not answered by success leaves the registry as it was.
  pub add_robot_request-refused :
      (fl : Float64 F) (atoi : String → Option ℕ) (req : AddRequest) (m : Manager F)
      → (add_robot_request fl atoi req m).1 ≢ success
      → (add_robot_request fl atoi req m).0 ≡ m
  unfolding add_robot_request
  add_robot_request-refused fl atoi req m n =
      ground (arith, add_robot_at-refused fl req.ns req.name req.ip (port_of atoi req.port_text) m)

  add_robot_at-Registry :
      (fl : Float64 F) (ns name ip : String) (port : Option ℕ) (m : Manager F)
      → m.next_id + 1 < int_half
      → Registry m
      → Registry (add_robot_at fl ns name ip port m).0
  unfolding add_robot_at
  add_robot_at-Registry fl ns name ip none m h v = v
  add_robot_at-Registry fl ns name ip (some port) m h v =
      add_robot-Registry fl ns name ip port m h v

  add_request-Registry :
      (fl : Float64 F) (atoi : String → Option ℕ) (req : AddRequest) (m : Manager F)
      → m.next_id + 1 < int_half
      → Registry m
      → Registry (add_robot_request fl atoi req m).0
  unfolding add_robot_request
  add_request-Registry fl atoi req m h v = elim (Bool-cases (req.method =? "POST")) [
    | inl post ↦ rw post (elim (Bool-cases ((req.ns =? "") || (req.name =? "") || (req.ip =? ""))) [
      | inl blank ↦ rw blank v
      | inr full ↦ rw full (add_robot_at-Registry fl req.ns req.name req.ip _ m h v)
    ])
    | inr other ↦ rw other v
  ]

  remove_request-Registry :
      (net : Network F) (stop_taken : Bool) (choice : ℕ) (method id : String) (m : Manager F)
      → Registry m
      → Registry (remove_robot_request net stop_taken choice method id m).0
  unfolding remove_robot_request
  remove_request-Registry net stop_taken choice method id m v =
      elim (Bool-cases (method =? "DELETE")) [
        | inl deletes ↦ rw deletes (elim (Bool-cases (id =? "")) [
          | inl blank ↦ rw blank v
          | inr named ↦ rw named (remove_robot-Registry net stop_taken choice id m v)
        ])
        | inr other ↦ rw other v
      ]

module _ {F : Type 0} (fl : Float64 F) (codec : Codec F) (net : Network F) (now : ℕ)
    (meanwhile : Client F → Client F) where
  learn_radius-KeepsIdentity :
      (answer : Result (HandshakeResponse F))
      → KeepsIdentity (learn_radius fl codec net now meanwhile answer)
  unfolding set_radius
  learn_radius-KeepsIdentity (err _) r = (refl, refl, refl)
  learn_radius-KeepsIdentity (ok hs) r = (ground arith, ground arith, ground arith)

  shake_hands-KeepsIdentity :
      (c : Client F × Option Error) → KeepsIdentity (shake_hands fl codec net now meanwhile c)
  shake_hands-KeepsIdentity (c, some _) r = (refl, refl, refl)
  shake_hands-KeepsIdentity (c, none) r =
      learn_radius-KeepsIdentity (handshake codec net now meanwhile c).1 _

  pub settle-KeepsIdentity :
      (dial : Dialer) → KeepsIdentity (settle fl codec net now meanwhile dial)
  unfolding settle
  settle-KeepsIdentity dial r = elim (Option-cases r.client) [
    | inl e ↦ (ground (arith, e), ground (arith, e), ground (arith, e))
    | inr (c, e) ↦
        let (i, ip, port) = shake_hands-KeepsIdentity (connect dial c) r in
        (ground (arith, e, i), ground (arith, e, ip), ground (arith, e, port))
  ]

  pub apply_settings-KeepsIdentity :
      (to_text : F → F → F → String) (s : Settings F)
      → KeepsIdentity (apply_settings fl codec net now meanwhile to_text s)
  unfolding apply_settings
  apply_settings-KeepsIdentity to_text s r = (ground arith, ground arith, ground arith)

  with_client-keeps : (f : Client F → Client F) → KeepsIdentity (with_client f)
  with_client-keeps f r = (refl, refl, refl)

  -- Whatever request on robots is served, and also the goroutine that an addition starts, the
  -- registry stays well-formed, while its counter is below 2 ^ 63 - 1.
  pub serve-Registry :
      (dial : Dialer) (to_text : F → F → F → String) (req : Request F) (m : Manager F)
      → m.next_id + 1 < int_half
      → Registry m
      → Registry (serve fl codec net now meanwhile dial to_text req m)
  unfolding serve switch_robot_request update_settings request_task_of power_off reboot task_request
  serve-Registry dial to_text (adds atoi req) m h v = add_request-Registry fl atoi req m h v
  serve-Registry dial to_text (settles id) m h v =
      update_robot-Registry id _ m (settle-KeepsIdentity dial) v
  serve-Registry dial to_text (removes stop_taken choice method id) m h v =
      remove_request-Registry net stop_taken choice method id m v
  serve-Registry dial to_text (switches id) m h v = switch_robot-Registry id m v
  serve-Registry dial to_text (sets id s) m h v =
      update_robot-Registry (id_or_current id m) _ m (apply_settings-KeepsIdentity to_text s) v
  serve-Registry dial to_text (tasks task settings id) m h v =
      update_robot-Registry (id_or_current id m) _ m
        (with_client-keeps (λ c. (request_task codec net now meanwhile task settings c).0)) v
  serve-Registry dial to_text (powers_off id) m h v =
      update_robot-Registry (id_or_current id m) _ m
        (with_client-keeps (λ c. (request_power_off codec net now meanwhile c).0)) v
  serve-Registry dial to_text (reboots id) m h v =
      update_robot-Registry (id_or_current id m) _ m
        (with_client-keeps (λ c. (request_reboot codec net now meanwhile c).0)) v
