-- ===== src/Http.antt =====
-- What lies behind client.go: requests, responses, and the parts of Go's standard library and of
-- the network that the program calls, as the parameter `Platform`.
pub mod Sign
pub mod Dispatch
pub mod Requests
use mathlib.Core.List.{Perm}
use gomaasapi.Prelude.{ℕ, Bool, Option, List, [], ℤ, Result}
use gomaasapi.Strings.{Text}
use gomaasapi.Params.{Values}
use gomaasapi.Errors.{JujuErrors}
use gomaasapi.Value.{Value}

-- url.URL: the fields that the program sets, and all others as one text.
pub record Url : Type 0 where
  pub origin : Text
  pub path : Text
  pub raw_query : Text

-- `&url.URL{Path: path}`
abbrev pub path_url : Text → Url
path_url path = record { origin = []; path = path; raw_query = [] }

-- http.Request: `authorization` holds the values of that header, in the order they were added.
pub record HttpRequest : Type 0 where
  pub method : Text
  pub url : Text
  pub content_type : Option Text
  pub authorization : List Text
  pub body : Text
  pub close : Bool

-- http.Response; reading its body may fail.
pub record Response (Err : Type 0) : Type 0 where
  pub status : Text
  pub status_code : ℕ
  pub header : List (Text × List Text)
  pub body : Result Err Text

pub record Platform : Type 1 where
  pub errors : JujuErrors
  pub open errors use {Err}
  -- float64
  pub Float : Type 0
  -- The state of all that the program does not control: servers, clocks, random numbers.
  pub Net : Type 0
  -- http.Client.Do
  pub do_request : HttpRequest → Net → Result Err (Response Err) × Net
  -- What http.Client.Do leaves unread of the body of the request.
  pub body_left : HttpRequest → Net → Text
  -- 16 bytes of crypto/rand
  pub rand_read : Net → Result Err (List ℕ) × Net
  -- time.Now().Unix()
  pub unix_time : Net → ℤ × Net
  -- The order in which `range` goes through a map from strings to strings.
  pub map_order : List (Text × Text) → Net → List (Text × Text) × Net
  pub map_order-perm : (m : List (Text × Text)) (n : Net) → Perm (map_order m n).0 m
  -- url.QueryEscape, Values.Encode, URL.ResolveReference, URL.String, url.Parse
  pub query_escape : Text → Text
  pub encode : Values → Text
  pub resolve_reference : Url → Url → Url
  pub url_string : Url → Text
  pub parse_url : Text → Result Err Url
  -- fmt's `%q`
  pub quote : Text → Text
  -- http.NewRequest refuses some methods and URLs.
  pub new_request_error : Text → Text → Option Err
  -- json.Unmarshal
  pub unmarshal : Text → Result Err (Value Float)
  -- multipart.Writer over a buffer
  pub Writer : Type 0
  pub new_writer : Net → Writer × Net
  pub create_form_file : Text → Text → Writer → Result Err Writer
  pub create_form_field : Text → Writer → Result Err Writer
  pub write : Text → Writer → Writer
  pub close_writer : Writer → Writer
  pub buffer : Writer → Text
  pub form_data_content_type : Writer → Text

-- What the program did, in order.
pub data Event : Type 0 where
  sent : HttpRequest → Event
  -- `<-time.After(d)`, with the duration in nanoseconds
  waited : ℤ → Event

-- The state that a call changes: the network, the trace of the program's acts, and the global
-- counter of requests.
pub record World (P : Platform) : Type 0 where
  pub net : P.Net
  pub trace : List Event
  pub request_number : ℤ
