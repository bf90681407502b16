-- ===== src/Markdown/Page/Harmless.antt =====
-- What the policy of src/markdown.rs lets into a rendered page.
use aperip_nomos.Prelude.{
  ◌≡◌, refl, ◌⊎◌, Bool, true, false, not, ◌&&◌, ◌||◌, List, [], ◌∷◌, Option, none, some, all,
  all_mono, arith, Bool-cases, inl, inr,
}
use aperip_nomos.Text.{Text, codes, text_eq}
use aperip_nomos.Text.Equality.{text_eq_iff}
use aperip_nomos.Map.{Map, lookup}
use aperip_nomos.Markdown.Events.{safe_event}
use aperip_nomos.Markdown.Page.{
  sanitizer, Element, member, names_of, is_rel, is_allowed_url, HtmlCrates, HtmlLaws,
  is_allowed_attribute, is_allowed, render_license_markdown, filter_map, markdown_options,
}

-- the elements of the HTML standard that group text: they load nothing and take no input
abbrev grouping_tags : List Text
grouping_tags =
    codes "p"
    ∷ codes "hr"
    ∷ codes "pre"
    ∷ codes "blockquote"
    ∷ codes "ol"
    ∷ codes "ul"
    ∷ codes "li"
    ∷ codes "dl"
    ∷ codes "dt"
    ∷ codes "dd"
    ∷ codes "figure"
    ∷ codes "figcaption"
    ∷ codes "div"
    ∷ []

-- the headings below the first level, which is that of the page itself
abbrev heading_tags : List Text
heading_tags = codes "h2" ∷ codes "h3" ∷ codes "h4" ∷ codes "h5" ∷ codes "h6" ∷ []

-- the elements that mark a run of text, or an edit of it
abbrev text_tags : List Text
text_tags =
    codes "a"
    ∷ codes "em"
    ∷ codes "strong"
    ∷ codes "small"
    ∷ codes "s"
    ∷ codes "cite"
    ∷ codes "q"
    ∷ codes "abbr"
    ∷ codes "code"
    ∷ codes "samp"
    ∷ codes "kbd"
    ∷ codes "sub"
    ∷ codes "sup"
    ∷ codes "i"
    ∷ codes "b"
    ∷ codes "u"
    ∷ codes "mark"
    ∷ codes "span"
    ∷ codes "br"
    ∷ codes "wbr"
    ∷ codes "ins"
    ∷ codes "del"
    ∷ []

-- the elements of a table
abbrev table_tags : List Text
table_tags =
    codes "table"
    ∷ codes "caption"
    ∷ codes "tbody"
    ∷ codes "thead"
    ∷ codes "tfoot"
    ∷ codes "tr"
    ∷ codes "td"
    ∷ codes "th"
    ∷ []

abbrev is_inert_tag : Text → Bool
is_inert_tag tag =
    member tag grouping_tags
    || member tag heading_tags
    || member tag text_tags
    || member tag table_tags

-- the attributes that only describe their element
abbrev inert_names : List Text
inert_names =
    codes "title"
    ∷ codes "class"
    ∷ codes "lang"
    ∷ codes "dir"
    ∷ codes "start"
    ∷ codes "colspan"
    ∷ codes "rowspan"
    ∷ codes "rel"
    ∷ []

-- such an attribute, or the address of a link
abbrev is_inert_name : Text → Text → Bool
is_inert_name tag name =
    member name inert_names || (text_eq tag (codes "a") && text_eq name (codes "href"))

abbrev safe_schemes : List Text
safe_schemes = codes "http" ∷ codes "https" ∷ codes "mailto" ∷ []

module _ (h : HtmlCrates) where
  -- an attribute that only describes its element, or the address of a link, with one of three schemes
  abbrev pub is_harmless_attribute : Text → Text × Text → Bool
  is_harmless_attribute tag (name, value) =
      is_inert_name tag name
      && (not (text_eq name (codes "href"))
          || elim (h.scheme value) [ none ↦ false | some scheme ↦ member scheme safe_schemes ])

  abbrev pub is_harmless : Element → Bool
  is_harmless e = is_inert_tag e.tag && all (is_harmless_attribute e.tag) e.attributes

  -- a page of which every element is harmless
  abbrev pub IsHarmless : Text → Type 0
  IsHarmless html = all is_harmless (h.elements html) ≡ true

-- a test that every text of a list meets is met by each member
member-all :
    (p : Text → Bool) (t : Text) (good : List Text)
    → all p good ≡ true
    → member t good ≡ true
    → p t ≡ true
member-all p t [] a m = cc
member-all p t (g ∷ good) a m = elim (Bool-cases (text_eq t g)) [
  | inl same ↦ rw ((text_eq_iff t g).0 same) (ground arith)
  | inr apart ↦ member-all p t good (ground arith) (ground arith)
]

and_true : (a b : Bool) → (a && b) ≡ true → (a ≡ true) × (b ≡ true)
and_true true b e = (refl, e)
and_true false b e = cc

-- the same for the lists that a map has
names-all :
    (p : Text → Text → Bool) (tag : Text) (m : Map (List Text))
    → all (λ e. all (p e.0) e.1) m ≡ true
    → all (p tag) (names_of (lookup tag m)) ≡ true
unfolding lookup
names-all p tag [] a = refl
names-all p tag ((k, names) ∷ m) a = elim (Bool-cases (text_eq k tag)) [
  | inl same ↦
      let key : k ≡ tag = (text_eq_iff k tag).0 same in rw same (rw (← key) (and_true _ _ a).0)
  | inr apart ↦ rw apart (names-all p tag m (ground arith))
]

join_true : (a b : Bool) → a ≡ true → b ≡ true → (a && b) ≡ true
join_true a b h k = rw (h, k) refl

or_true : (a b : Bool) → (a || b) ≡ true → (a ≡ true) ⊎ (b ≡ true)
or_true true b e = inl refl
or_true false b e = inr e

or_right : (a b : Bool) → b ≡ true → (a || b) ≡ true
or_right true b e = refl
or_right false b e = e

sanitizer_tags : all is_inert_tag sanitizer.tags ≡ true
unfolding sanitizer text_eq
sanitizer_tags = refl

sanitizer_names : all (λ e. all (is_inert_name e.0) e.1) sanitizer.tag_attributes ≡ true
unfolding sanitizer text_eq
sanitizer_names = refl

-- `rel` may stand at any element
rel_is_inert : (tag : Text) → is_inert_name tag (codes "rel") ≡ true
unfolding text_eq
rel_is_inert tag = refl

name-safe :
    (tag name : Text)
    → (member name sanitizer.generic_attributes
        || member name (names_of (lookup tag sanitizer.tag_attributes))
        || is_rel sanitizer.link_rel name)
      ≡ true
    → is_inert_name tag name ≡ true
unfolding sanitizer
name-safe tag name h =
    elim (or_true (member name (names_of (lookup tag sanitizer.tag_attributes))) _ h) [
      | inl listed ↦
          member-all (is_inert_name tag) name (names_of (lookup tag sanitizer.tag_attributes))
            (names-all is_inert_name tag sanitizer.tag_attributes sanitizer_names) listed
      | inr rel ↦ rw ((text_eq_iff name (codes "rel")).0 rel) (rel_is_inert tag)
    ]

module _ (h : HtmlCrates) (laws : HtmlLaws h) where
  url-safe :
      (scheme : Option Text)
      → is_allowed_url sanitizer scheme ≡ true
      → elim scheme [ none ↦ false | some s ↦ member s safe_schemes ] ≡ true
  unfolding sanitizer
  url-safe none e = e
  url-safe (some s) e = e

  link-safe :
      (name : Text) (scheme : Option Text)
      → (not (text_eq name (codes "href")) || is_allowed_url sanitizer scheme) ≡ true
      → (not (text_eq name (codes "href"))
          || elim scheme [ none ↦ false | some s ↦ member s safe_schemes ])
        ≡ true
  link-safe name scheme e = elim (or_true (not (text_eq name (codes "href"))) _ e) [
    | inl other ↦ rw other refl
    | inr allowed ↦ or_right (not (text_eq name (codes "href"))) _ (url-safe scheme allowed)
  ]

  attribute-harmless :
      (tag : Text) (a : Text × Text)
      → is_allowed_attribute h sanitizer tag a ≡ true
      → is_harmless_attribute h tag a ≡ true
  unfolding is_allowed_attribute
  attribute-harmless tag (name, value) e =
      let (named, linked) = and_true _ _ e in
      join_true (is_inert_name tag name) _ (name-safe tag name named)
        (link-safe name (h.scheme value) linked)

  element-harmless : (e : Element) → is_allowed h sanitizer e ≡ true → is_harmless h e ≡ true
  unfolding is_allowed
  element-harmless e allowed =
      let (tagged, named) = and_true _ _ allowed in
      join_true (is_inert_tag e.tag) _
        (member-all is_inert_tag e.tag sanitizer.tags sanitizer_tags tagged)
        (all_mono (is_allowed_attribute h sanitizer e.tag) (is_harmless_attribute h e.tag)
          (attribute-harmless e.tag) e.attributes named)

  -- Every element of a page that `render_license_markdown` returns is harmless, whatever the text is:
  -- it is one of those that group text, head a section below the first level, mark a run of text or
  -- make up a table, and each of its attributes only describes it or is the address of a link `a`,
  -- with the scheme http, https or mailto.
  pub render_license_markdown-IsHarmless :
      (markdown : Text) → IsHarmless h (render_license_markdown h markdown)
  unfolding render_license_markdown
  render_license_markdown-IsHarmless markdown =
      let html = h.push_html (filter_map safe_event (h.parse markdown_options markdown)) in
      all_mono (is_allowed h sanitizer) (is_harmless h) element-harmless
        (h.elements (h.clean sanitizer html)) (laws.clean_allowed sanitizer html)
