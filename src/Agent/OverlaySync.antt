-- ===== src/Agent/OverlaySync.antt =====
-- internal/agent/overlay_source.go: the rules that the agent fetches. HTTP and encoding/json are
-- parameters.
pub mod Latest
use skybridge.Prelude.{
  ℕ, ◌*◌, ◌≡◌, refl, Bool, true, false, not, ◌&&◌, ◌||◌, Option, none, some, List, [], ◌∷◌, ◌++◌,
  ltb, leb, if◌then◌else◌, Bytes, take, Result, ok, err,
}
use skybridge.Prelude.Int.{ℤ, pos, negsuc}
use skybridge.Prelude.Dict.{Dict}
use skybridge.Prelude.Text.{codes, Unicode, trim_space}
use skybridge.Mask.Overlay
use skybridge.Mask.Overlay.{Rules, new_overlay}
use skybridge.Agent.{Config}

pub record OverlaySource : Type 0 where
  pub url : Bytes
  pub token : Bytes
  pub org_id : Bytes

unfoldable pub new_overlay_source : Unicode → Config → OverlaySource
new_overlay_source u cfg = record {
  url = trim_space u cfg.pii_overlay_url;
  token = trim_space u cfg.pii_overlay_token;
  org_id = trim_space u cfg.org_id;
}

-- A GET request: its address and its headers.
pub record Request : Type 0 where
  pub url : Bytes
  pub headers : List (Bytes × Bytes)

unfoldable pub header_unless_empty : Bytes → Bytes → Bytes → List (Bytes × Bytes)
header_unless_empty name prefix [] = []
header_unless_empty name prefix (b ∷ bs) = (name, prefix ++ (b ∷ bs)) ∷ []

unfoldable pub overlay_request : OverlaySource → Request
unfolding header_unless_empty
overlay_request s = record {
  url = s.url;
  headers =
      (codes "Accept", codes "application/json")
      ∷ (header_unless_empty (codes "Authorization") (codes "Bearer ") s.token
          ++ header_unless_empty (codes "X-Curlix-Organization-Id") [] s.org_id);
}

pub data FetchError : Type 0 where
  request_failed : FetchError
  bad_status : ℕ → Bytes → FetchError
  bad_body : FetchError

-- The answer to a request, as status and body, `none` for an error; and the field `columns` of a body,
-- empty for null, or `none` where the body is no such JSON.
pub record Control : Type 0 where
  pub send : Request → Option (ℕ × Bytes)
  pub columns : Bytes → Option Rules

unfoldable pub read_columns : Option Rules → Result FetchError Rules
read_columns none = err bad_body
read_columns (some rules) = ok rules

unfoldable pub read_answer : Unicode → Control → Option (ℕ × Bytes) → Result FetchError Rules
unfolding read_columns
read_answer u c none = err request_failed
read_answer u c (some (status, body)) =
    if ltb status 200 || leb 300 status
    then err (bad_status status (trim_space u (take 512 body)))
    else read_columns (c.columns (take 1048576 body))

unfoldable pub fetch : Unicode → Control → OverlaySource → Result FetchError Rules
unfolding read_answer overlay_request
fetch u c s = read_answer u c (c.send (overlay_request s))

-- The overlay after a refresh: the rules are replaced when the fetch succeeds, and stay otherwise.
unfoldable pub refresh : Unicode → Result FetchError Rules → Overlay.Overlay → Overlay.Overlay
unfolding Overlay.replace
refresh u (err e) o = o
refresh u (ok rules) o = Overlay.replace u rules o

abbrev pub overlay_min_poll : ℕ
overlay_min_poll = 15

-- The seconds between two refreshes, `none` for a single fetch.
unfoldable pub poll_interval : ℤ → Option ℕ
poll_interval (negsuc n) = none
poll_interval (pos n) = some (if ltb n overlay_min_poll then overlay_min_poll else n)

-- The rules after some fetches, in order.
unfoldable pub refresh_all :
    Unicode → List (Result FetchError Rules) → Overlay.Overlay → Overlay.Overlay
unfolding refresh
refresh_all u [] o = o
refresh_all u (r ∷ rs) o = refresh_all u rs (refresh u r o)
