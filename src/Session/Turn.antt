-- ===== src/Session/Turn.antt =====
-- session/http.hpp: one round of the loop of a session, from the wait for a request to the answer.
use boost_taar.Common.{
  false, not, ◌&&◌, ◌||◌, Option, none, some, List, [], ◌∷◌, is_empty, if◌then◌else◌, Bytes, codes,
  iequals,
}
use boost_taar.Core.Cookies.{parse_into, thrown}
use boost_taar.Session.Failures.{
  ErrorCode, timeout, Failure, coded, is_clean_close, is_transport_error, is_timeout,
}
use boost_taar.Session.Routes.{Header, Context, Parsed, no_context, choose}
use boost_taar.Session.Message.{
  Response, finish_response, finish_header, closes, fails, keep, write_response,
  write_protocol_error, soft_error,
}
use boost_taar.Session.Answer.{
  Interception, Interceptor, Session, Arrival, Round, then_ends, no_longer, ended, dispatched,
  proceeds, rejects, refuses,
}

-- The interceptors, up to the first that does not let the request pass.
unfoldable pub intercept : List Interceptor → Header → Context → Parsed → Interception × Context
intercept [] request c p = (proceeds, c)
intercept (i ∷ is) request c p =
    let (verdict, c') = i request c p in
    let rest = intercept is request c' p in
    elim verdict [ proceeds ↦ rest | rejects r ↦ (rejects r, c') | refuses f ↦ (refuses f, c') ]

abbrev pub typed : Response → Response
typed r = record r { opaque = false }

-- The two decisions of `run_interceptors`, and what follows when the request proceeds.
unfoldable pub intercepted : Session → Arrival → Parsed → Interception × Context → Round
unfolding choose
intercepted s a p (proceeds, c) =
    let request = if a.shutdown_early then no_longer a.header else a.header in
    dispatched s a request p (choose s.head_from_get s.routes request c p)
intercepted s a p (rejects r, c) =
    let request = if a.body_done then a.header else no_longer a.header in
    let done =
      finish_header s.settings request
        (finish_response request.version request.keep_alive a.shutdown_early (typed r)) in
    (write_response request done ∷ [], keep done.keep_alive)
intercepted s a p (refuses f, c) =
    let request = if a.body_done then a.header else no_longer a.header in
    then_ends (not a.shutdown_early && a.body_done)
      (soft_error s.settings s.soft_error_handler f request)

unfoldable pub routed : Session → Arrival → Parsed → Round
unfolding intercept choose
routed s a p =
    if is_empty s.interceptors
    then dispatched s a a.header p (choose s.head_from_get s.routes a.header no_context p)
    else intercepted s a p (intercept s.interceptors a.header no_context p)

-- The Cookie fields in order; what a field that is malformed has stored stays. None stands for the
-- exception of a value that does not decode.
unfoldable pub read_cookies :
    (Bytes → Option Bytes)
    → List (Bytes × Bytes)
    → List (Bytes × Bytes)
    → Option (List (Bytes × Bytes))
read_cookies decode [] items = some items
read_cookies decode ((name, value) ∷ fields) items =
    let (items', status) = parse_into decode value items in
    let rest = read_cookies decode fields items' in
    let same = read_cookies decode fields items in
    if iequals name (codes "Cookie") then elim status [ thrown ↦ none | other ↦ rest ] else same

abbrev pub parsed_round : Session → Arrival → Option (List (Bytes × Bytes)) → Round
parsed_round s a none = ([], fails s.decode_failure)
parsed_round s a (some cookies) =
    let target = if s.needs_parsed_target then a.header.target else [] in
    routed s a (record { target = target; cookies = cookies })

-- The wait for the first byte of a request, unless bytes are there already.
-- Some when the wait ends the connection, with a failure or without.
unfoldable pub idle_end : Arrival → Option (Option Failure)
idle_end a = elim a.idle_error [
  | none ↦ none
  | some e ↦
      if a.buffered
      then none
      else if is_timeout e || is_clean_close e || not a.open_after_idle
      then some none
      else some (some (coded e []))
]

unfoldable pub header_round : Session → Arrival → ErrorCode → Round
header_round s a e =
    if is_timeout e
    then (write_protocol_error s.settings (coded e []) a.header ∷ [], closes)
    else if is_clean_close e
    then ([], closes)
    else (
      if is_transport_error e
          then []
          else write_protocol_error s.settings (coded e []) a.header ∷ [],
      fails (coded e []),
    )

abbrev pub headed : Session → Arrival → Option ErrorCode → Round
headed s a (some e) = header_round s a (if a.header_expired then timeout else e)
headed s a none =
    let cookies = read_cookies s.decode a.header.fields [] in
    parsed_round s a (if s.needs_parsed_cookies then cookies else some [])

abbrev pub waited : Session → Arrival → Option (Option Failure) → Round
waited s a none = headed s a a.header_error
waited s a (some f) = ([], ended f)

unfoldable pub turn : Session → Arrival → Round
unfolding read_cookies idle_end
turn s a = if a.cancelled || not a.open_before then ([], closes) else waited s a (idle_end a)
