-- ===== src/Server/Turned.antt =====
-- What the handlers leave as it was when they turn a request down.
use rom_go_app.Prelude.{
  if_holds, ℕ, ◌≡◌, ◌≢◌, refl, subst, String, Bool, not, Option, none, some, Float64, arith,
  Option-cases, Bool-cases, inl, inr, ◌=?◌,
}
use rom_go_app.Rosbridge.Client.{Client, Network, Result, ok, err}
use rom_go_app.Rosbridge.Codec.{Raw, Codec}
use rom_go_app.Robot.{Robot, with_client}
use rom_go_app.Manager.{Manager, get_robot}
use rom_go_app.Api.{
  Status, success, method_not_allowed, bad_request, conflict, not_found, service_unavailable,
  internal_error, remove_robot_request, switch_robot_request, update_settings, id_or_current,
  client_status, call_status, task_request, Settings,
}
use rom_go_app.Api.Current.{on_current}
use rom_go_app.Api.Points.{with_a_client, import_payload, ImportPayload}
use rom_go_app.Api.Maps.{
  call_if_connected, raw_status, connected_call, mode_request, named_call, named_map_request,
  list_maps, look_for_maps,
}
use rom_go_app.Server.{Env, maps_answer}
use rom_go_app.Manager.{remove_robot, switch_robot}
use rom_go_app.Navigation.{NavError}
use rom_go_app.Rosbridge.Types.{WhichTaskResponse}
use rom_go_app.Api.Current.{IsRefusal, update_robot_same, update_robot_absent, on_current_refused}
use rom_go_app.Api.Points.{edited, remote_status}
use rom_go_app.Rosbridge.Client.{is_connected}
use rom_go_app.Navigation.Remote.{RemoteError}
use rom_go_app.Prelude.{◌⊎◌}
use rom_go_app.Server.{Answer, status}

abbrev pub IsRefused : {F : Type 0} → Answer F → Type 0
IsRefused (status s) = IsRefusal s
IsRefused _ = ⊥

pub refusal-ne-success : (s : Status) → IsRefusal s → s ≢ success
refusal-ne-success s h e = subst IsRefusal e h

raw_status-ne-IsRefusal : (answer : Result Raw) → ¬ IsRefusal (raw_status answer)
raw_status-ne-IsRefusal (ok _) h = h
raw_status-ne-IsRefusal (err _) h = h

pub remote_status-ne-IsRefusal : (e : Option RemoteError) → ¬ IsRefusal (remote_status e)
remote_status-ne-IsRefusal none h = h
remote_status-ne-IsRefusal (some _) h = h

module _ {F : Type 0} where
  -- A handler that changes nothing where its answer is in `R`.
  abbrev pub Turns : {A : Type 0} → (A → Type 0) → Manager F → Manager F × A → Type 0
  Turns R m w = R w.1 → w.0 ≡ m

  pub remove_robot_request-refused :
      (net : Network F) (stop_taken : Bool) (choice : ℕ) (method id : String) (m : Manager F)
      → Turns IsRefusal m (remove_robot_request net stop_taken choice method id m)
  unfolding remove_robot_request remove_robot
  remove_robot_request-refused net stop_taken choice method id m =
      if_holds (Turns IsRefusal m) (not (method =? "DELETE")) (λ h. refl)
        (if_holds (Turns IsRefusal m) (id =? "") (λ h. refl) (λ h. ground arith))

  pub switch_robot_request-refused :
      (id : String) (m : Manager F) → Turns IsRefusal m (switch_robot_request id m)
  unfolding switch_robot_request switch_robot
  switch_robot_request-refused id m h = ground arith

  call_status-ne-IsRefusal :
      (fl : Float64 F) (codec : Codec F) (net : Network F) (now : ℕ)
      (meanwhile : Client F → Client F) (answer : Result WhichTaskResponse)
      → ¬ IsRefusal (call_status fl codec net now meanwhile answer)
  call_status-ne-IsRefusal fl codec net now meanwhile (ok _) h = h
  call_status-ne-IsRefusal fl codec net now meanwhile (err _) h = h

  client_status-refused :
      (fl : Float64 F) (codec : Codec F) (net : Network F) (now : ℕ)
      (meanwhile : Client F → Client F) (call : Client F → Client F × Result WhichTaskResponse)
      (r : Robot F) (c : Option (Client F))
      → r.client ≡ c
      → IsRefusal (client_status fl codec net now meanwhile call c)
      → with_client (λ d. (call d).0) r ≡ r
  client_status-refused fl codec net now meanwhile call r none e h = ground (arith, e)
  client_status-refused fl codec net now meanwhile call r (some c) e h =
      absurd (call_status-ne-IsRefusal fl codec net now meanwhile (call c).1 h)

  pub task_request-refused :
      (fl : Float64 F) (codec : Codec F) (net : Network F) (now : ℕ)
      (meanwhile : Client F → Client F) (call : Client F → Client F × Result WhichTaskResponse)
      (id : String) (m : Manager F)
      → Turns IsRefusal m (task_request fl codec net now meanwhile call id m)
  unfolding task_request
  task_request-refused fl codec net now meanwhile call id m h =
      elim (Option-cases (get_robot (id_or_current id m) m)) [
        | inl e ↦ update_robot_absent (id_or_current id m) _ m e
        | inr (r, e) ↦
            update_robot_same (id_or_current id m) _ m r e
              (client_status-refused fl codec net now meanwhile call r r.client refl (rw e at h))
      ]

  pub update_settings-refused :
      (fl : Float64 F) (codec : Codec F) (net : Network F) (now : ℕ)
      (meanwhile : Client F → Client F) (to_text : F → F → F → String) (id : String)
      (s : Settings F) (m : Manager F)
      → Turns IsRefusal m (update_settings fl codec net now meanwhile to_text id s m)
  unfolding update_settings
  update_settings-refused fl codec net now meanwhile to_text id s m h =
      elim (Option-cases (get_robot (id_or_current id m) m)) [
        | inl e ↦ update_robot_absent (id_or_current id m) _ m e
        | inr (r, e) ↦ absurd (rw e at h)
      ]

  call_if_connected-refused :
      (call : Client F → Client F × Result Raw) (c : Option (Client F)) (r : Robot F)
      → IsRefusal (call_if_connected call c r).1
      → (call_if_connected call c r).0 ≡ r
  call_if_connected-refused call none r h = refl
  call_if_connected-refused call (some c) r h = elim (Bool-cases (is_connected c)) [
    | inl up ↦ absurd (raw_status-ne-IsRefusal (call c).1 (rw up at h))
    | inr down ↦ rw down refl
  ]

  called-refused :
      (call : Client F → Client F × Result Raw) (m : Manager F)
      → Turns IsRefusal m (on_current (connected_call call) m)
  unfolding connected_call
  called-refused call m h =
      on_current_refused (connected_call call) m (λ r. call_if_connected-refused call r.client r) h

  pub mode_request-refused :
      (call : Client F → Client F × Result Raw) (method : String) (m : Manager F)
      → Turns IsRefusal m (mode_request call method m)
  unfolding mode_request
  mode_request-refused call method m =
      if_holds (Turns IsRefusal m) (method =? "POST") (called-refused call m) (λ h. refl)

  named_call-refused :
      (call : String → Client F → Client F × Result Raw) (body : Option String) (m : Manager F)
      → Turns IsRefusal m (named_call call body m)
  named_call-refused call none m = λ h. refl
  named_call-refused call (some name) m =
      if_holds (Turns IsRefusal m) (name =? "") (λ h. refl) (called-refused (call name) m)

  pub named_map_request-refused :
      (call : String → Client F → Client F × Result Raw) (method : String) (body : Option String)
      (m : Manager F)
      → Turns IsRefusal m (named_map_request call method body m)
  unfolding named_map_request
  named_map_request-refused call method body m =
      if_holds (Turns IsRefusal m) (method =? "POST") (named_call-refused call body m) (λ h. refl)

  -- A handler whose body never turns the request down.
  pub willing-refused :
      (f : Robot F → Robot F) (m : Manager F)
      → Turns IsRefusal m (on_current (λ r. (f r, success)) m)
  willing-refused f m = on_current_refused (λ r. (f r, success)) m (λ r h. absurd h)

  pub list_maps-refused :
      (env : Env F) (method : String) (m : Manager F)
      → Turns IsRefusal m (list_maps env.codec env.net env.now env.meanwhile method m)
  unfolding list_maps
  list_maps-refused env method m =
      if_holds (Turns IsRefusal m) (method =? "GET")
        (willing-refused (look_for_maps env.codec env.net env.now env.meanwhile) m) (λ h. refl)

  pub maps_answer-IsRefused :
      (m : Manager F) (w : Manager F × Status)
      → Turns IsRefusal m w
      → Turns IsRefused m (maps_answer w)
  maps_answer-IsRefused m (w, success) t h = absurd h
  maps_answer-IsRefused m (w, method_not_allowed) t h = t tt
  maps_answer-IsRefused m (w, bad_request) t h = t tt
  maps_answer-IsRefused m (w, conflict) t h = t tt
  maps_answer-IsRefused m (w, not_found) t h = t tt
  maps_answer-IsRefused m (w, service_unavailable) t h = t tt
  maps_answer-IsRefused m (w, internal_error) t h = absurd h

  pub edited-refused :
      (r : Robot F) (w : Robot F × Option NavError)
      → (w.1 ≡ none) ⊎ (w.0 ≡ r)
      → IsRefusal (edited w).1
      → (edited w).0 ≡ r
  edited-refused r w (inl e) h = absurd (rw e at h)
  edited-refused r w (inr e) h = e

  pub with_a_client-refused :
      (f : Robot F → Robot F × Status) (c : Option (Client F)) (r : Robot F)
      → (IsRefusal (f r).1 → (f r).0 ≡ r)
      → IsRefusal (with_a_client c f r).1
      → (with_a_client c f r).0 ≡ r
  with_a_client-refused f none r k h = refl
  with_a_client-refused f (some _) r k h = k h

  pub import_payload-refused :
      (body : Option (ImportPayload F)) (r : Robot F)
      → IsRefusal (import_payload body r).1
      → (import_payload body r).0 ≡ r
  unfolding import_payload
  import_payload-refused none r h = refl
  import_payload-refused (some p) r h = absurd h
