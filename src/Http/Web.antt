-- ===== src/Http/Web.antt =====
-- What src/http takes from the crates http, serde_json and axum: a map of headers, the answer that
-- `Json` makes, and the router. They are parameters, and the laws state their documented behaviour.
use aperip_nomos.Prelude.{
  ◌≡◌, ◌⊎◌, Bool, true, false, List, [], ◌∷◌, Option, none, some, if◌then◌else◌,
}
use aperip_nomos.Text.{Text, codes, text_eq}
use aperip_nomos.Text.Utf8.{Bytes}
use aperip_nomos.Http.{StatusCode, unauthorized_401, LicenseSummary, LicenseDetail}

-- the methods of requests, and what a route is registered for
pub data Method : Type 0 where
  get head post delete other : Method

pub data Verb : Type 0 where
  on_get on_post on_delete : Verb

-- `get` takes the requests with HEAD too
unfoldable pub serves : Verb → Method → Bool
serves on_get Method.get = true
serves on_get Method.head = true
serves on_post Method.post = true
serves on_delete Method.delete = true
serves _ _ = false

pub record Route (E : Type 0) : Type 0 where
  pub path : Text
  pub verb : Verb
  pub endpoint : E

-- one of the routes that were registered
abbrev pub Registered : {E : Type 0} → Route E → List (Route E) → Type 0
Registered route [] = ⊥
Registered route (first ∷ rest) = (route ≡ first) ⊎ Registered route rest

-- What the router makes of a request: it found a route, with the text that `{slug}` stands for; no path
-- fits; or a path fits, but no method of it. The flag tells whether the layers of the routes run then.
pub data Dispatched (E : Type 0) : Type 0 where
  found : Route E → Option Text → Dispatched E
  no_route : Dispatched E
  no_method : Bool → Dispatched E

-- the bodies that the program writes as JSON
pub record ErrorBody : Type 0 where
  pub code : Text
  pub message : Text

pub data Payload : Type 0 where
  error_response : ErrorBody → Payload
  health_response : Text → Payload
  license_list_response : List LicenseSummary → Payload
  license_response : LicenseDetail → Payload

abbrev pub www_authenticate : Text
www_authenticate = codes "www-authenticate"

pub record WebCrates : Type 1 where
  pub HeaderMap : Type 0
  pub empty : HeaderMap
  pub append : Text → Text → HeaderMap → HeaderMap
  pub insert : Text → Text → HeaderMap → HeaderMap
  pub get_first : Text → HeaderMap → Option Text
  -- the headers and the body of `Json`, and the refusal of a path whose `{slug}` is not a text
  pub json : Payload → HeaderMap × Bytes
  pub rejection : StatusCode × (HeaderMap × Bytes)
  pub fits : Text → Text → Bool
  pub dispatch : {E : Type 0} → List (Route E) → Method → Text → Dispatched E

-- the first of two values that is there
abbrev pub or_else : Option Text → Text → Option Text
or_else none value = some value
or_else (some first) value = some first

pub record WebLaws (w : WebCrates) : Type 1 where
  pub get-empty : (name : Text) → w.get_first name w.empty ≡ none
  pub get-append :
      (name other value : Text) (headers : w.HeaderMap)
      → w.get_first name (w.append other value headers) ≡ (
          if text_eq other name
          then or_else (w.get_first name headers) value
          else w.get_first name headers)
  pub get-insert :
      (name other value : Text) (headers : w.HeaderMap)
      → w.get_first name (w.insert other value headers)
        ≡ (if text_eq other name then some value else w.get_first name headers)
  pub json-asks : (payload : Payload) → w.get_first www_authenticate (w.json payload).0 ≡ none
  pub rejection-asks :
      (¬ (w.rejection.0 ≡ unauthorized_401)) × (w.get_first www_authenticate w.rejection.1.0 ≡ none)
  -- a route that is found was registered for the path and the method of the request
  pub found-fits :
      {E : Type 0} (routes : List (Route E)) (method : Method) (path : Text) (route : Route E)
      (slug : Option Text)
      → w.dispatch routes method path ≡ found route slug
      → Registered route routes
        × (serves route.verb method ≡ true)
        × (w.fits route.path path ≡ true)
