-- ===== src/Server/Answers.antt =====
-- Every request on a connection of boxerd/ipc_server.py is answered.
use boxer.Base.{◌≡◌, refl, ap, ◌∙◌, Option, none, some, List, [], ◌∷◌, map, All, arith}
use boxer.Json.{Json, null, boolean, number, str, array, object, Fields, get}
use boxer.Server.{
  Line, message, Reply, Response, get_or_null, params_of, Registered, dispatch, answered,
  serve_loop,
}

-- A method that can be looked up: no list and no object.
abbrev pub IsHashable : Json → Type 0
IsHashable (array _) = ⊥
IsHashable (object _) = ⊥
IsHashable _ = Unit

abbrev pub requests : List Fields → List Line
requests msgs = map (λ m. message (object m)) msgs

module _ {S A : Type 0} (handlers : List (Registered S A)) where
  dispatch-some :
      (method params : Json) (s : S)
      → IsHashable method
      → (reply : Reply A) × ((dispatch handlers method params s).0 ≡ some reply)
  dispatch-some (str method) params s h = (_, refl)
  dispatch-some null params s h = (_, refl)
  dispatch-some (boolean b) params s h = (_, refl)
  dispatch-some (number n) params s h = (_, refl)
  dispatch-some (array xs) params s h = absurd h
  dispatch-some (object xs) params s h = absurd h

  answered-ids :
      (id : Json) (outcome : Option (Reply A) × S) (reply : Reply A)
      (rest : S → List (Response A) × S)
      → outcome.0 ≡ some reply
      → map (λ r. r.id) (answered id outcome rest).0 ≡ id ∷ map (λ r. r.id) (rest outcome.1).0
  answered-ids id (some r, s) reply rest e = refl
  answered-ids id (none, s) reply rest e = absurd (ground arith)

  -- A connection that carries requests whose methods can be looked up, and then ends, is written one
  -- response for each request, in the order of the requests and with their ids, whatever the handlers
  -- return or raise and whether or not they are known.
  pub serve_loop-answers :
      (msgs : List Fields) (s : S)
      → All (λ m. IsHashable (get_or_null "method" m)) msgs
      → map (λ r. r.id) (serve_loop handlers (requests msgs) s).0 ≡ map (get_or_null "id") msgs
  unfolding serve_loop
  serve_loop-answers [] s h = refl
  serve_loop-answers (msg ∷ msgs) s h =
      let step = dispatch handlers (get_or_null "method" msg) (params_of (get "params" msg)) s in
      let (reply, e) =
        dispatch-some (get_or_null "method" msg) (params_of (get "params" msg)) s h.0 in
      answered-ids (get_or_null "id" msg) step reply (serve_loop handlers (requests msgs)) e
      ∙ ap (◌∷◌ (get_or_null "id" msg)) (serve_loop-answers msgs step.1 h.1)
