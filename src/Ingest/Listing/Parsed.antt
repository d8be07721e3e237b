-- ===== src/Ingest/Listing/Parsed.antt =====
-- The page that parse_list_xml makes of a well-formed listing.
use radar_workstation.Common.{
  ◌≡◌, refl, ap, ap₂, sym, ◌∙◌, none, some, ok, and_then, Bytes, List, [], ◌∷◌, ◌++◌, Bool, true,
  false, append_assoc, append-nil, ◌&&◌,
}
use radar_workstation.Common.Text.{codes, bytes_eq}
use radar_workstation.Ingest.Listing.{
  XmlEvent, end_tag, XmlReader, ListTag, key_tag, next_continuation_token_tag, common_prefix_tag,
  other_tag, ListPage, encode_utf8, named_entity, resolve_general_ref, ListState, empty_page,
  tag_is_other, tag_named, on_start_tag, take_text, on_end_tag, on_event, on_events, finish_page,
  parse_list_xml,
}
use radar_workstation.Ingest.Listing.Items.{
  Piece, piece_event, piece_text, piece_events, text_of, Element, flag_text, element_events,
  listing_events, IsUnread, IsElement, AllElements, keys_in, folders_in, flag_in, token_in,
  page_onto, amp, lt, gt, apos, quot, plain, entity, numbered, key_element, folder_element,
  truncated_element, token_element, unread_element, opening, closing,
}

-- The parser between two elements.
abbrev pub between : ListPage → Bytes → ListState
between p t = record { page = p; in_tag = other_tag; in_common_prefixes = false; current_text = t }

-- The parser in an element whose text is read.
abbrev pub within : ListPage → ListTag → Bool → Bytes → ListState
within p tag folder t = record {
  page = p;
  in_tag = tag;
  in_common_prefixes = folder;
  current_text = t;
}

on_event-piece :
    (q : Piece) (p : ListPage) (tag : ListTag) (folder : Bool) (t : Bytes)
    → tag_is_other tag ≡ false
    → on_event (piece_event q) (within p tag folder t)
      ≡ ok (within p tag folder (t ++ piece_text q))
unfolding on_event resolve_general_ref named_entity encode_utf8 bytes_eq
on_event-piece (plain u) p tag folder t read = rw read
on_event-piece (entity amp) p tag folder t read = rw read
on_event-piece (entity lt) p tag folder t read = rw read
on_event-piece (entity gt) p tag folder t read = rw read
on_event-piece (entity apos) p tag folder t read = rw read
on_event-piece (entity quot) p tag folder t read = rw read
on_event-piece (numbered c name) p tag folder t read = rw read

on_events-pieces :
    (ps : List Piece) (rest : List XmlEvent) (p : ListPage) (tag : ListTag) (folder : Bool)
    (t : Bytes)
    → tag_is_other tag ≡ false
    → on_events (piece_events ps ++ rest) (within p tag folder t)
      ≡ on_events rest (within p tag folder (t ++ text_of ps))
unfolding on_events
on_events-pieces [] rest p tag folder t read =
    ap (λ u. on_events rest (within p tag folder u)) (sym (append-nil t))
on_events-pieces (q ∷ ps) rest p tag folder t read =
    ap (λ r. and_then r (on_events (piece_events ps ++ rest)))
      (on_event-piece q p tag folder t read)
    ∙ on_events-pieces ps rest p tag folder (t ++ piece_text q) read
    ∙ ap (λ u. on_events rest (within p tag folder u)) (append_assoc t (piece_text q) (text_of ps))

on_events-unread :
    (ps : List Piece) (rest : List XmlEvent) (p : ListPage) (t : Bytes)
    → on_events (piece_events ps ++ rest) (between p t) ≡ on_events rest (between p t)
unfolding on_events on_event
on_events-unread [] rest p t = refl
on_events-unread (plain u ∷ ps) rest p t = on_events-unread ps rest p t
on_events-unread (entity e ∷ ps) rest p t = on_events-unread ps rest p t
on_events-unread (numbered c name ∷ ps) rest p t = on_events-unread ps rest p t

-- The page and the text that an element leaves.
abbrev pub page_after : Element → ListPage → ListPage
page_after (key_element ps) p = record p { keys = p.keys ++ text_of ps ∷ [] }
page_after (folder_element ps) p = record p {
  common_prefixes = p.common_prefixes ++ text_of ps ∷ [];
}
page_after (truncated_element b) p = record p { is_truncated = b }
page_after (token_element ps) p = record p { next_token = some (text_of ps) }
page_after _ p = p

abbrev pub text_left : Element → Bytes → Bytes
text_left (truncated_element b) t = flag_text b
text_left (closing name) t = t
text_left _ t = []

&&-false : (b : Bool) → (b && false) ≡ false
&&-false true = refl
&&-false false = refl

on_start_tag-unread :
    (name : Bytes) (p : ListPage) (t : Bytes)
    → IsUnread name
    → on_start_tag name (between p t) ≡ between p []
unfolding on_start_tag tag_named
on_start_tag-unread name p t is =
    rw (is.0, is.1, is.2, is.3, &&-false (bytes_eq name (codes "Prefix")))

on_end_tag-unread :
    (name : Bytes) (p : ListPage) (t : Bytes)
    → IsUnread name
    → on_end_tag name (between p t) ≡ between p t
unfolding on_end_tag take_text
on_end_tag-unread name p t is = rw (is.0)

on_events-element :
    (e : Element) (rest : List XmlEvent) (p : ListPage) (t : Bytes)
    → IsElement e
    → on_events (element_events e rest) (between p t)
      ≡ on_events rest (between (page_after e p) (text_left e t))
unfolding on_events on_event on_start_tag tag_named on_end_tag take_text bytes_eq
on_events-element (key_element ps) rest p t is =
    on_events-pieces ps (end_tag (codes "Key") ∷ rest) p key_tag false [] refl
on_events-element (folder_element ps) rest p t is =
    on_events-pieces ps (end_tag (codes "Prefix") ∷ end_tag (codes "CommonPrefixes") ∷ rest) p
      common_prefix_tag true [] refl
on_events-element (truncated_element true) rest p t is = refl
on_events-element (truncated_element false) rest p t is = refl
on_events-element (token_element ps) rest p t is =
    on_events-pieces ps (end_tag (codes "NextContinuationToken") ∷ rest) p
      next_continuation_token_tag false [] refl
on_events-element (unread_element name ps) rest p t is =
    ap (on_events (piece_events ps ++ (end_tag name ∷ rest))) (on_start_tag-unread name p t is)
    ∙ on_events-unread ps (end_tag name ∷ rest) p []
    ∙ ap (on_events rest) (on_end_tag-unread name p [] is)
on_events-element (opening name) rest p t is = ap (on_events rest) (on_start_tag-unread name p t is)
on_events-element (closing name) rest p t is = ap (on_events rest) (on_end_tag-unread name p t is)

page_onto-element :
    (e : Element) (es : List Element) (p : ListPage)
    → page_onto (page_after e p) es ≡ page_onto p (e ∷ es)
page_onto-element (key_element ps) es p =
    ap (λ ks. record (page_onto p es) { keys = ks })
      (append_assoc p.keys (text_of ps ∷ []) (keys_in es))
page_onto-element (folder_element ps) es p =
    ap (λ fs. record (page_onto p es) { common_prefixes = fs })
      (append_assoc p.common_prefixes (text_of ps ∷ []) (folders_in es))
page_onto-element (truncated_element b) es p = refl
page_onto-element (token_element ps) es p = refl
page_onto-element (unread_element name ps) es p = refl
page_onto-element (opening name) es p = refl
page_onto-element (closing name) es p = refl

page_onto-nil : (p : ListPage) → page_onto p [] ≡ p
page_onto-nil p =
    ap₂ (λ ks fs. record p { keys = ks; common_prefixes = fs }) (append-nil p.keys)
      (append-nil p.common_prefixes)

on_events-listing :
    (es : List Element) (p : ListPage) (t : Bytes)
    → AllElements es
    → (u : Bytes) × (on_events (listing_events es) (between p t) ≡ ok (between (page_onto p es) u))
unfolding on_events
on_events-listing [] p t is = (t, ap (λ q. ok (between q t)) (sym (page_onto-nil p)))
on_events-listing (e ∷ es) p t is =
    let (u, rest) = on_events-listing es (page_after e p) (text_left e t) is.1 in
    (
      u,
      on_events-element e (listing_events es) p t is.0
          ∙ rest
          ∙ ap (λ q. ok (between q u)) (page_onto-element e es p),
    )

-- A listing whose events are those of keys, folders, flags, tokens and unread elements gives the
-- page that these say: the keys and the folders in their order, with references and split text put
-- together, the last flag and the last token, and nothing of the unread elements.
pub parse_list_xml-listing :
    (reader : XmlReader) (body : Bytes) (es : List Element)
    → AllElements es
    → reader.read_events body ≡ (listing_events es, none)
    → parse_list_xml reader body
      ≡ ok (record {
        keys = keys_in es;
        common_prefixes = folders_in es;
        is_truncated = flag_in false es;
        next_token = token_in none es;
      })
unfolding parse_list_xml finish_page
parse_list_xml-listing reader body es is events =
    let (u, parsed) = on_events-listing es empty_page [] is in rw (events, parsed)
