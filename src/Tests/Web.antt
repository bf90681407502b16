-- ===== src/Tests/Web.antt =====
-- A router and a map of headers that behave as axum and http document, for the examples.
use aperip_nomos.Prelude.{
  ◌≡◌, refl, sym, inl, inr, Bool, true, false, not, ◌&&◌, List, [], ◌∷◌, Option, none, some, ◌==◌,
  is_empty, if◌then◌else◌, Bool-cases,
}
use aperip_nomos.Text.{Text, codes, text_eq, contains_char}
use aperip_nomos.Text.Utf8.{as_bytes}
use aperip_nomos.Http.{bad_request_400}
use aperip_nomos.Http.Web.{
  Method, Route, Registered, Dispatched, found, no_route, no_method, serves, Payload,
  error_response, health_response, license_list_response, license_response, WebCrates, WebLaws,
  or_else,
}

-- a header map as the function that finds the first value
abbrev Headers : Type 0
Headers = Text → Option Text

abbrev put : Text → Text → Headers → Headers
put other value headers name = if text_eq other name then some value else headers name

abbrev json_body : Payload → Text
json_body (error_response e) = e.code
json_body (health_response status) = status
json_body (license_list_response licenses) = codes "[]"
json_body (license_response license) = license.slug

abbrev is_segment : Text → Bool
is_segment path = not (is_empty path) && not (contains_char b'/' path)

-- what `{slug}` stands for, if a path fits a pattern that ends with it
abbrev rest_of : Text → Text → Option Text
rest_of [] [] = some []
rest_of [] (d ∷ path) = none
rest_of (c ∷ pattern) [] = none
rest_of (c ∷ pattern) (d ∷ path) =
    let more = rest_of pattern path in
    if c == b'{'
    then (if is_segment (d ∷ path) then some (d ∷ path) else none)
    else if c == d
    then more
    else none

abbrev is_there : Option Text → Bool
is_there none = false
is_there (some t) = true

abbrev fits : Text → Text → Bool
fits pattern path = is_there (rest_of pattern path)

abbrev or_no_method : {E : Type 0} → Dispatched E → Dispatched E
or_no_method (found r slug) = found r slug
or_no_method no_route = no_method false
or_no_method (no_method layered) = no_method layered

abbrev dispatch : {E : Type 0} → List (Route E) → Method → Text → Dispatched E
dispatch [] method path = no_route
dispatch (r ∷ rest) method path =
    let more = dispatch rest method path in
    if fits r.path path
    then (if serves r.verb method then found r (rest_of r.path path) else or_no_method more)
    else more

abbrev pub web : WebCrates
web = record {
  HeaderMap = Headers;
  empty = λ name. none;
  append = λ other value headers name.
      if text_eq other name then or_else (headers name) value else headers name;
  insert = put;
  get_first = λ name headers. headers name;
  json = λ payload. (
    put (codes "content-type") (codes "application/json") λ name. none,
    as_bytes (json_body payload),
  );
  rejection = (bad_request_400, (λ name. none, codes "Invalid URL"));
  fits = fits;
  dispatch = dispatch;
}

or_no_method-found :
    {E : Type 0} (d : Dispatched E) (r : Route E) (slug : Option Text)
    → or_no_method d ≡ found r slug
    → d ≡ found r slug
or_no_method-found (found q s) r slug h = h
or_no_method-found no_route r slug h = cc
or_no_method-found (no_method layered) r slug h = cc

found_fits :
    {E : Type 0} (routes : List (Route E)) (method : Method) (path : Text) (route : Route E)
    (slug : Option Text)
    → dispatch routes method path ≡ found route slug
    → Registered route routes × (serves route.verb method ≡ true) × (fits route.path path ≡ true)
found_fits [] method path route slug h = cc
found_fits (r ∷ rest) method path route slug h = elim (Bool-cases (fits r.path path)) [
  | inr apart ↦
      let (there, v, p) = found_fits rest method path route slug (rw apart at h) in
      (inr there, v, p)
  | inl fit ↦ elim (Bool-cases (serves r.verb method)) [
    | inr other ↦
        let (there, v, p) =
          found_fits rest method path route slug
            (or_no_method-found (dispatch rest method path) route slug (rw (fit, other) at h)) in
        (inr there, v, p)
    | inl same ↦
        let here : r ≡ route = (let k = rw (fit, same) at h in cc) in
        (inl (sym here), rw (← here) same, rw (← here) fit)
  ]
]

pub web_laws : WebLaws web
unfolding text_eq
web_laws = record {
  get-empty = λ name. refl;
  get-append = λ name other value headers. refl;
  get-insert = λ name other value headers. refl;
  json-asks = λ payload. refl;
  rejection-asks = (λ h. cc, refl);
  found-fits = found_fits;
}
