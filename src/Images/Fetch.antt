-- ===== src/Images/Fetch.antt =====
-- What boxerd/image_catalog.py fetches, and from where.
use boxer.Base.{
  ℕ, zero, suc, String, Bool, true, false, not, ◌&&◌, Option, none, some, List, any, leb, ltb, ◌==◌,
  if◌then◌else◌,
}
use boxer.Ipc.{Error, Result, ok, err, ipc_error, exception, invalid_params, internal}
use boxer.Action.{pure, raise, lift, ◌>>=◌, ◌>>◌}
use boxer.LeaseManager.{truthy}
use boxer.Images.{Response, Net, Manager}

-- An `HTTPStatusError` is kept with the class of its status.
abbrev pub server_error : Error
server_error = exception "HTTPStatusError 5xx"

abbrev pub client_error : Error
client_error = exception "HTTPStatusError"

abbrev pub transport_error : Error
transport_error = exception "TransportError"

-- `_is_transient_fetch_error`
unfoldable pub is_transient_fetch_error : Error → Bool
is_transient_fetch_error (ipc_error _) = false
is_transient_fetch_error (exception name) =
    if name == "TransportError" then true else name == "HTTPStatusError 5xx"

abbrev refused : {A : Type 0} → Result A
refused = err (ipc_error invalid_params)

-- `raise_for_status()`
abbrev raise_for_status : Response → Result (Unit {0})
raise_for_status response =
    if leb 200 response.status_code && ltb response.status_code 300
    then ok tt
    else if leb 500 response.status_code && ltb response.status_code 600
    then err server_error
    else err client_error

abbrev no_location : Option String → Result String
no_location none = err (ipc_error internal)
no_location (some location) = ok location

module _ {Bytes World : Type 0} (net : Net Bytes World) where
  unfoldable pub on_net : {A : Type 0} → (World → Result A × World) → Manager Bytes World A
  on_net call (cache, world) = let (r, world') = call world in (r, (cache, world'))

  -- What is no address is refused as a private one.
  unfoldable pub is_private_ip : String → Bool
  is_private_ip ip = elim (net.in_blocked_networks ip) [ none ↦ true | some blocked ↦ blocked ]

  abbrev public_only : Option (List String) → Result (Unit {0})
  public_only none = refused
  public_only (some addresses) = if any is_private_ip addresses then refused else ok tt

  abbrev named : Option String → World → Result (Unit {0}) × World
  named none world = (refused, world)
  named (some hostname) world =
      let (addresses, world') = net.getaddrinfo hostname world in (public_only addresses, world')

  -- `_validate_url`, with the state of the network that the look-up leaves.
  unfoldable pub checked_url : String → World → Result (Unit {0}) × World
  unfolding is_private_ip
  checked_url url world =
      if not (net.scheme url == "https")
      then (refused, world)
      else named (truthy (net.hostname url)) world

  unfoldable pub validate_url : String → Manager Bytes World (Unit {0})
  unfolding on_net
  validate_url url = on_net (checked_url url)

  -- The loop of `_stream_validated`: so many requests are left.
  unfoldable pub stream_validated : ℕ → String → Manager Bytes World Response
  unfolding validate_url
  stream_validated zero url = raise (ipc_error internal)
  stream_validated (suc left) url = do
    validate_url url
    response ← on_net (net.send url)
    if leb 300 response.status_code && ltb response.status_code 400
        then (do
          location ← lift (no_location (truthy response.location))
          stream_validated left (net.urljoin url location))
        else (do lift (raise_for_status response); pure response)

  -- `_download` and `_download_bytes`: at most six requests.
  unfoldable pub download : String → Manager Bytes World Bytes
  unfolding stream_validated
  download url = do response ← stream_validated 6 url; on_net (net.read_body response)
