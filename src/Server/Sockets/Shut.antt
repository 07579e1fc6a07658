-- ===== src/Server/Sockets/Shut.antt =====
-- The channel of a session that is over is closed.
use rom_go_app.Prelude.{ℕ, ◌<◌, ◌≡◌, ◌∙◌, refl, true, false, List, [], ◌∷◌, arith, subst}
use rom_go_app.Hub.{Hub, contains, subscribe, unsubscribe, close_chan, offer, offer_each, broadcast}
use rom_go_app.Hub.Sound.{contains-append, contains-without}
use rom_go_app.Hub.Sessions.{Sessions, cleanup, joins, cleans, says, reads as receives, no_sessions}
use rom_go_app.Hub.Sessions as Sessions
use rom_go_app.Manager.{BroadcastMsg}
use rom_go_app.Browser.Writer.Ends.{receive-few}

module _ {F : Type 0} where
  offer_each-closed :
      (m : BroadcastMsg F) (js : List ℕ) (k : ℕ) (h : Hub (BroadcastMsg F))
      → (((offer_each m js h).chans k).closed ≡ (h.chans k).closed)
        × ((offer_each m js h).next_chan ≡ h.next_chan)
  unfolding offer_each offer
  offer_each-closed m [] k h = (refl, refl)
  offer_each-closed m (j ∷ js) k h =
      let (closed, next) = offer_each-closed m js k (offer m j h) in
      (closed ∙ ground arith, next ∙ ground arith)

  -- The channel of a session that is over is closed.
  abbrev pub IsShut : Sessions (BroadcastMsg F) → Type 0
  IsShut t =
      (k : ℕ) → k < t.hub.next_chan → contains k t.live ≡ false → (t.hub.chans k).closed ≡ true

  step-IsShut :
      (t : Sessions (BroadcastMsg F)) (e : Sessions.Event (BroadcastMsg F))
      → IsShut t
      → IsShut (Sessions.step t e)
  unfolding Sessions.step subscribe cleanup unsubscribe close_chan broadcast
  step-IsShut t joins v =
      λ k made gone. ground (arith, contains-append k t.hub.next_chan t.live, v k)
  step-IsShut t (cleans j) v = λ k made gone. ground (arith, contains-without k j t.live, v k)
  step-IsShut t (says m) v = λ k made gone.
      let (closed, next) = offer_each-closed m t.hub.subscribers k t.hub in
      closed ∙ v k (subst (λ n. k < n) next made) gone
  step-IsShut t (receives j) v = λ k made gone.
      let (closed, _, next) = receive-few j k t.hub in
      closed ∙ v k (subst (λ n. k < n) next made) gone

  pub run-IsShut :
      (es : List (Sessions.Event (BroadcastMsg F))) (t : Sessions (BroadcastMsg F))
      → IsShut t
      → IsShut (Sessions.run t es)
  unfolding Sessions.run
  run-IsShut [] t v = v
  run-IsShut (e ∷ es) t v = run-IsShut es (Sessions.step t e) (step-IsShut t e v)
