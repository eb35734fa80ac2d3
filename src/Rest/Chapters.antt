-- ===== src/Rest/Chapters.antt =====
-- The numbers of the chapters of an EPUB (internal/api/rest.go).
use mercury_relay.Prelude.{
  ℕ, suc, String, ◌≡◌, ◌≢◌, refl, ap, inl, inr, Bool, none, List, [], ◌∷◌, map, All, Option-cases,
}
use mercury_relay.Prelude.Json.{Stdlib}
use mercury_relay.Models.Event.{Event}
use mercury_relay.Rest.Books.{Book}
use mercury_relay.Rest.Structure.{decoded_object, content_less}
use mercury_relay.Rest.Epub.{
  Texts, EpubImage, numbered, chapters_of, images_of, generate_epub, items_from,
}

module _ (texts : Texts) {F : Type 0} (lib : Stdlib F) where
  -- The content of the event decodes into an object.
  abbrev pub IsReadable : Event F → Type 0
  IsReadable e = decoded_object lib e.content ≢ none

  chapter_ids :
      (include_images : Bool) (n : ℕ) (events : List (Event F)) (images : List EpubImage)
      → All IsReadable events
      → map (λ c. c.id) (chapters_of texts lib include_images n events images).0
        ≡ items_from
            (numbered "chapter-")
            n
            (chapters_of texts lib include_images n events images).0
  unfolding chapters_of
  chapter_ids include_images n [] images readable = refl
  chapter_ids include_images n (e ∷ events) images (r, readable) =
      elim (Option-cases (decoded_object lib e.content)) [
        | inl f ↦ absurd (r f)
        | inr (content, f) ↦
            rw (chapters_of, f)
              (ap (λ ids. numbered "chapter-" n ∷ ids)
                (chapter_ids include_images (suc n) events
                  (images_of texts lib include_images content images) readable))
      ]

  -- Where every content decodes, the chapters of an EPUB have the identifiers chapter-1, chapter-2
  -- and so on, in the order of the sort, which are those of the package document's items.
  pub generate_epub-chapter_ids :
      (sort : (Event F → Event F → Bool) → List (Event F) → List (Event F)) (date : String)
      (include_images : Bool) (book : Book F)
      → All IsReadable (sort content_less book.contents)
      → map (λ c. c.id) (generate_epub texts lib sort date include_images book).content
        ≡ items_from
            (numbered "chapter-")
            1
            (generate_epub texts lib sort date include_images book).content
  unfolding generate_epub
  generate_epub-chapter_ids sort date include_images book readable =
      chapter_ids include_images 1 (sort content_less book.contents) [] readable
