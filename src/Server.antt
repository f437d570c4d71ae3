-- ===== src/Server.antt =====
-- `IPCServer` of boxerd/ipc_server.py: the loop that reads a request from a connection, calls its
-- handler, and writes the answer. The connection is the list of what is read from it; a write that
-- fails, the log and the texts of errors are left out.
pub mod Answers
use boxer.Base.{
  String, Bool, true, false, not, Option, none, some, List, [], ◌∷◌, ◌==◌, if◌then◌else◌,
}
use boxer.Ipc.{
  ErrorCode, Error, Result, ok, err, ipc_error, exception, method_not_found, parse_error, internal,
}
use boxer.Json.{Json, null, boolean, number, str, array, object, Fields, no_fields, get, holds}
use boxer.Action.{Action}

-- What `read_message` gives: the connection is at its end or reset, the line is not JSON (or too long),
-- or a value.
pub data Line : Type 0 where
  closed garbled : Line
  message : Json → Line

-- What is written: a result or the code of an error.
pub data Reply (A : Type 0) : Type 0 where
  result : A → Reply A
  error : ErrorCode → Reply A

pub record Response (A : Type 0) : Type 0 where
  pub id : Json
  pub reply : Reply A

-- msg.get(key)
abbrev pub get_or_null : String → Fields → Json
get_or_null key msg = elim (get key msg) [ none ↦ null | some value ↦ value ]

-- msg.get("params", {}) or {}
abbrev pub params_of : Option Json → Json
params_of none = object no_fields
params_of (some value) = if holds value then value else object no_fields

abbrev pub reply_of : {A : Type 0} → Result A → Reply A
reply_of (ok a) = result a
reply_of (err (ipc_error code)) = error code
reply_of (err (exception name)) = error internal

pub record Registered (S A : Type 0) : Type 0 where
  pub method : String
  pub handler : Json → Action S A

module _ {S A : Type 0} where
  -- `register`: a method that is registered again has the later handler.
  unfoldable pub register :
      String → (Json → Action S A) → List (Registered S A) → List (Registered S A)
  register method handler [] = record { method = method; handler = handler } ∷ []
  register method handler (r ∷ handlers) =
      let rest = register method handler handlers in
      if r.method == method
      then record { method = method; handler = handler } ∷ handlers
      else r ∷ rest

  unfoldable pub lookup : String → List (Registered S A) → Option (Json → Action S A)
  lookup method [] = none
  lookup method (r ∷ handlers) =
      let rest = lookup method handlers in if r.method == method then some r.handler else rest

  -- `handlers[method](params)`, with every exception as an answer.
  abbrev pub called : Option (Json → Action S A) → Json → S → Reply A × S
  called none params s = (error method_not_found, s)
  called (some handler) params s = let (r, t) = handler params s in (reply_of r, t)

  -- A method that is a list or an object has no hash: its TypeError ends the connection.
  abbrev pub dispatch : List (Registered S A) → Json → Json → S → Option (Reply A) × S
  dispatch handlers (str method) params s =
      let (reply, t) = called (lookup method handlers) params s in (some reply, t)
  dispatch handlers (array _) params s = (none, s)
  dispatch handlers (object _) params s = (none, s)
  dispatch handlers _ params s = (some (error method_not_found), s)

  abbrev pub answered :
      Json → Option (Reply A) × S → (S → List (Response A) × S) → List (Response A) × S
  answered id (none, s) rest = ([], s)
  answered id (some reply, s) rest =
      let (responses, t) = rest s in (record { id = id; reply = reply } ∷ responses, t)

  -- `_serve_loop`: what is written to the connection, and the state at its end. A value that is no
  -- object has no `get`, and ends the connection without an answer.
  unfoldable pub serve_loop : List (Registered S A) → List Line → S → List (Response A) × S
  unfolding lookup
  serve_loop handlers [] s = ([], s)
  serve_loop handlers (closed ∷ lines) s = ([], s)
  serve_loop handlers (garbled ∷ lines) s =
      (record { id = null; reply = error parse_error } ∷ [], s)
  serve_loop handlers (message (object msg) ∷ lines) s =
      answered (get_or_null "id" msg)
        (dispatch handlers (get_or_null "method" msg) (params_of (get "params" msg)) s)
        (serve_loop handlers lines)
  serve_loop handlers (message _ ∷ lines) s = ([], s)
