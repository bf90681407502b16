-- ===== src/Markdown/Page.antt =====
-- `render_license_markdown` of src/markdown.rs: the parser, the filter of its events, the writer of
-- HTML, and the sanitizer with its policy. The parser, the writer and the sanitizer are the crates
-- pulldown_cmark and ammonia; the laws state what ammonia documents of the HTML that it returns.
pub mod Harmless
use aperip_nomos.Prelude.{
  ◌≡◌, Bool, true, false, not, ◌&&◌, ◌||◌, List, [], ◌∷◌, Option, none, some, all, any,
}
use aperip_nomos.Text.{Text, codes, text_eq}
use aperip_nomos.Map.{Map, lookup}
use aperip_nomos.Markdown.Events.{Event, safe_event}

-- the extensions of pulldown_cmark that the program turns on
pub data Extension : Type 0 where
  strikethrough tables : Extension

unfoldable pub markdown_options : List Extension
markdown_options = strikethrough ∷ tables ∷ []

-- `UrlRelative` of ammonia, as far as the program uses it
pub data UrlRelative : Type 0 where
  deny pass_through : UrlRelative

-- the settings of ammonia's `Builder` that the program makes
pub record Builder : Type 0 where
  pub tags : List Text
  pub generic_attributes : List Text
  pub tag_attributes : Map (List Text)
  pub url_schemes : List Text
  pub url_relative : UrlRelative
  pub link_rel : Option Text

unfoldable pub sanitizer : Builder
sanitizer = record {
  tags =
      codes "a"
      ∷ codes "blockquote"
      ∷ codes "br"
      ∷ codes "code"
      ∷ codes "del"
      ∷ codes "em"
      ∷ codes "h2"
      ∷ codes "h3"
      ∷ codes "h4"
      ∷ codes "h5"
      ∷ codes "h6"
      ∷ codes "hr"
      ∷ codes "li"
      ∷ codes "ol"
      ∷ codes "p"
      ∷ codes "pre"
      ∷ codes "strong"
      ∷ codes "table"
      ∷ codes "tbody"
      ∷ codes "td"
      ∷ codes "th"
      ∷ codes "thead"
      ∷ codes "tr"
      ∷ codes "ul"
      ∷ [];
  generic_attributes = [];
  tag_attributes =
      (codes "a", codes "href" ∷ codes "title" ∷ [])
      ∷ (codes "code", codes "class" ∷ [])
      ∷ (codes "ol", codes "start" ∷ [])
      ∷ [];
  url_schemes = codes "http" ∷ codes "https" ∷ codes "mailto" ∷ [];
  url_relative = deny;
  link_rel = some (codes "noopener noreferrer");
}

-- an element of a page, with its attributes
pub record Element : Type 0 where
  pub tag : Text
  pub attributes : List (Text × Text)

-- `HashSet::contains`
abbrev pub member : Text → List Text → Bool
member t = any (text_eq t)

abbrev pub names_of : Option (List Text) → List Text
names_of none = []
names_of (some names) = names

abbrev pub is_rel : Option Text → Text → Bool
is_rel none name = false
is_rel (some rel) name = text_eq name (codes "rel")

-- an address that a link may have, given its scheme
abbrev pub is_allowed_url : Builder → Option Text → Bool
is_allowed_url builder (some scheme) = member scheme builder.url_schemes
is_allowed_url builder none = elim builder.url_relative [ deny ↦ false | pass_through ↦ true ]

pub record HtmlCrates : Type 0 where
  pub parse : List Extension → Text → List Event
  pub push_html : List Event → Text
  pub clean : Builder → Text → Text
  -- how a browser reads a page, and the scheme of an address, if it is not relative
  pub elements : Text → List Element
  pub scheme : Text → Option Text

-- `filter_map`
abbrev pub filter_map : (Event → Option Event) → List Event → List Event
filter_map f [] = []
filter_map f (event ∷ rest) = elim (f event) [
  | none ↦ filter_map f rest
  | some kept ↦ kept ∷ filter_map f rest
]

module _ (h : HtmlCrates) where
  -- `render_license_markdown`
  unfoldable pub render_license_markdown : Text → Text
  render_license_markdown markdown =
      h.clean sanitizer (h.push_html (filter_map safe_event (h.parse markdown_options markdown)))

  -- what the documentation of ammonia says of an attribute and of an element that it leaves
  unfoldable pub is_allowed_attribute : Builder → Text → Text × Text → Bool
  is_allowed_attribute builder tag (name, value) =
      (member name builder.generic_attributes
        || member name (names_of (lookup tag builder.tag_attributes))
        || is_rel builder.link_rel name)
      && (not (text_eq name (codes "href")) || is_allowed_url builder (h.scheme value))

  unfoldable pub is_allowed : Builder → Element → Bool
  unfolding is_allowed_attribute
  is_allowed builder e =
      member e.tag builder.tags && all (is_allowed_attribute builder e.tag) e.attributes

pub record HtmlLaws (h : HtmlCrates) : Type 0 where
  pub clean_allowed :
      (builder : Builder) (html : Text)
      → all (is_allowed h builder) (h.elements (h.clean builder html)) ≡ true
