-- ===== src/Rest/Books.antt =====
-- internal/api/rest.go: the lists of books and their contents.
use mercury_relay.Prelude.{
  String, ◌<>◌, str_eq, Bool, true, false, ◌⊎◌, inl, inr, none, some, List, [], ◌∷◌, filter, ℤ, pos,
  ltb_ℤ, if◌then◌else◌,
}
use mercury_relay.Prelude.Json.{Json, Fields, Stdlib, get}
use mercury_relay.Models.Event.{Event, Tags}
use mercury_relay.Models.Filter.{Filter, empty_filter}
use mercury_relay.Cache.{Cache}
use mercury_relay.Cache.Redis.{d_tag}
use mercury_relay.Rest.Requests.{
  ApiError, Values, first_value, int_value, get_ebooks_failed, book_id_required, get_book_failed,
  book_not_found, invalid_book_metadata, book_identifier_not_found, get_content_failed,
}
use mercury_relay.Rest.Structure.{ContentNode, Forest, decoded_object, build_book_structure}

-- The filter of `HandleEbooks`.
unfoldable pub ebook_filter : Values → Filter
ebook_filter query = record empty_filter {
  kinds = pos 30040 ∷ [];
  authors = let author = first_value query "author" in if str_eq author "" then [] else author ∷ [];
  limit = elim (int_value query "limit") [ none ↦ pos 0 | some l ↦ l ];
}

-- `getString`
unfoldable pub get_string : {F : Type 0} → Fields F → String → String → String
get_string m key default = elim (get key m) [ some (Json.str value) ↦ value | _ ↦ default ]

-- Whether a book's metadata name another format than the one asked for.
unfoldable pub other_format : {F : Type 0} → String → Fields F → Bool
other_format format metadata = if str_eq format "" then false else elim (get "format" metadata) [
  | some (Json.str book_format) ↦ if str_eq book_format format then false else true
  | _ ↦ false
]

-- The test of the loops over the tags: an "a" tag with the address.
unfoldable pub has_address : String → Tags → Bool
has_address address [] = false
has_address address ((t ∷ v ∷ more) ∷ tags) =
    let rest = has_address address tags in
    if str_eq t "a" then if str_eq v address then true else rest else rest
has_address address (_ ∷ tags) = has_address address tags

-- `fmt.Sprintf("30040:%s:%s", ...)`
abbrev pub book_address : String → String → String
book_address pubkey identifier = "30040:" <> pubkey <> ":" <> identifier

-- The depth that `HandleEbookContent` takes from the query.
unfoldable pub max_depth_of : Values → ℤ
max_depth_of query = elim (int_value query "depth") [
  | none ↦ pos 3
  | some d ↦ if ltb_ℤ (pos 0) d then d else pos 3
]

unfoldable pub book_filter : String → Filter
book_filter book_id = record empty_filter { kinds = pos 30040 ∷ []; ids = book_id ∷ [] }

unfoldable pub content_filter : String → Filter
content_filter pubkey = record empty_filter { kinds = pos 30041 ∷ []; authors = pubkey ∷ [] }

-- A book of the list, with its metadata.
pub record Ebook (F : Type 0) : Type 0 where
  pub event : Event F
  pub metadata : Fields F

-- A book with its contents, before they are arranged.
pub record Book (F : Type 0) : Type 0 where
  pub event : Event F
  pub metadata : Fields F
  pub contents : List (Event F)

pub record BookReply (F : Type 0) : Type 0 where
  pub event : Event F
  pub metadata : Fields F
  pub structure : Forest (ContentNode F)

module _ {F : Type 0} (lib : Stdlib F) where
  -- The loop of `HandleEbooks`.
  unfoldable pub ebooks_of : String → List (Event F) → List (Ebook F)
  unfolding other_format
  ebooks_of format [] = []
  ebooks_of format (e ∷ events) =
      let rest = ebooks_of format events in
      elim (decoded_object lib e.content) [
        | none ↦ rest
        | some metadata ↦
            if other_format format metadata
            then rest
            else record { event = e; metadata = metadata } ∷ rest
      ]

  module _ (C : Cache F) where
    -- `HandleEbooks`; the identifier in the query is not used.
    unfoldable pub handle_ebooks : Values → C.State → C.State × (ApiError C.Error ⊎ List (Ebook F))
    unfolding ebooks_of ebook_filter
    handle_ebooks query st =
        let (st, got) = C.get_events (ebook_filter query) st in
        (
          st,
          elim got [
            | inl err ↦ inl (get_ebooks_failed err)
            | inr events ↦ inr (ebooks_of (first_value query "format") events)
          ],
        )

    -- The contents of a book: the events of its author that name its address.
    unfoldable pub fetch_contents :
        Event F → Fields F → C.State → C.State × (ApiError C.Error ⊎ Book F)
    unfolding content_filter has_address
    fetch_contents book metadata st =
        let identifier = d_tag book.tags in
        if str_eq identifier ""
        then (st, inl book_identifier_not_found)
        else (let (st, got) = C.get_events (content_filter book.pub_key) st in
            (
              st,
              elim got [
                | inl err ↦ inl (get_content_failed err)
                | inr events ↦ inr (record {
                  event = book;
                  metadata = metadata;
                  contents =
                      filter (λ e. has_address (book_address book.pub_key identifier) e.tags)
                        events;
                })
              ],
            ))

    unfoldable pub open_book :
        C.State → C.Error ⊎ List (Event F) → C.State × (ApiError C.Error ⊎ Book F)
    unfolding fetch_contents
    open_book st (inl err) = (st, inl (get_book_failed err))
    open_book st (inr []) = (st, inl book_not_found)
    open_book st (inr (book ∷ books)) = elim (decoded_object lib book.content) [
      | none ↦ (st, inl invalid_book_metadata)
      | some metadata ↦ fetch_contents book metadata st
    ]

    -- The steps that `HandleEbookContent` and `HandleEbookEPUB` begin with.
    unfoldable pub fetch_book : String → C.State → C.State × (ApiError C.Error ⊎ Book F)
    unfolding open_book book_filter
    fetch_book book_id st =
        if str_eq book_id ""
        then (st, inl book_id_required)
        else (let (st, got) = C.get_events (book_filter book_id) st in open_book st got)

    unfoldable pub handle_ebook_content :
        ((Event F → Event F → Bool) → List (Event F) → List (Event F))
        → String
        → Values
        → C.State
        → C.State × (ApiError C.Error ⊎ BookReply F)
    unfolding fetch_book max_depth_of
    handle_ebook_content sort book_id query st =
        let (st, got) = fetch_book book_id st in
        (
          st,
          elim got [
            | inl err ↦ inl err
            | inr book ↦ inr (record {
              event = book.event;
              metadata = book.metadata;
              structure = build_book_structure lib sort book.contents (max_depth_of query);
            })
          ],
        )
