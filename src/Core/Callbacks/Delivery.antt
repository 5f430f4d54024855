-- ===== src/Core/Callbacks/Delivery.antt =====
-- Who sees an event, and in which order.
use langchain_cpp.Base.{◌≡◌, refl, sym, ◌∙◌, List, [], ◌∷◌, ◌++◌, map, append_assoc, append-nil}
use langchain_cpp.Base.Exec.{Exec}
use langchain_cpp.Core.Callbacks.{
  CallbackHandler, CallbackManager, LlmEndEvent, dispatch, add_handler, on_llm_end,
}

module _ {V W : Type 0} where
  dispatch-append :
      (hs ks : List (CallbackHandler V W)) (fn : CallbackHandler V W → Exec W (Unit {0})) (w : W)
      → dispatch (hs ++ ks) fn w ≡ dispatch ks fn (dispatch hs fn w)
  unfolding dispatch
  dispatch-append [] ks fn w = refl
  dispatch-append (h ∷ hs) ks fn w = dispatch-append hs ks fn (fn h w).1

  -- Whatever a hook does after writing its entry, throwing included, every registered handler
  -- writes its entry once, and the entries stand in the order of registration.
  pub dispatch_log :
      {L : Type 0} (log : W → List L) (entry : CallbackHandler V W → L)
      (fn : CallbackHandler V W → Exec W (Unit {0})) (hs : List (CallbackHandler V W))
      → ((h : CallbackHandler V W) (w : W) → log (fn h w).1 ≡ log w ++ entry h ∷ [])
      → (w : W) → log (dispatch hs fn w) ≡ log w ++ map entry hs
  unfolding dispatch
  dispatch_log log entry fn [] writes w = sym (append-nil (log w))
  dispatch_log log entry fn (h ∷ hs) writes w =
      dispatch_log log entry fn hs writes (fn h w).1
      ∙ rw (writes h w) (append_assoc (log w) (entry h ∷ []) (map entry hs))

  -- A handler that is added sees an event after all the others have seen it, in the world that
  -- they left, and an exception of one of them does not keep it from running.
  pub on_llm_end-add_handler :
      (m : CallbackManager V W) (h : CallbackHandler V W) (event : LlmEndEvent V) (w : W)
      → on_llm_end (add_handler h m) event w ≡ (h.on_llm_end event (on_llm_end m event w)).1
  unfolding on_llm_end add_handler dispatch
  on_llm_end-add_handler m h event w =
      dispatch-append m.handlers (h ∷ []) (λ handler. handler.on_llm_end event) w
