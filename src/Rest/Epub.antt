-- ===== src/Rest/Epub.antt =====
-- internal/api/rest.go: the chapters and images of a book's EPUB, and its package document.
use mercury_relay.Prelude.{
  ℕ, suc, ◌+◌, String, ◌<>◌, str_eq, Bool, ◌⊎◌, inl, inr, Option, none, some, List, [], ◌∷◌, ◌++◌,
  map, pos, length, if◌then◌else◌,
}
use mercury_relay.Prelude.Decimal.{itoa}
use mercury_relay.Prelude.Json.{Json, Fields, Stdlib, get, as_array, as_object}
use mercury_relay.Models.Event.{Event}
use mercury_relay.Cache.{Cache}
use mercury_relay.Cache.Redis.{d_tag}
use mercury_relay.Rest.Requests.{ApiError}
use mercury_relay.Rest.Books.{Book, get_string, fetch_book}
use mercury_relay.Rest.Structure.{decoded_object, content_less}

-- Functions of Go's strings package, and the date of a time.
pub record Texts : Type 0 where
  pub replace_all : String → String → String → String  -- text, old, new
  pub split_lines : String → List String
  pub join : List String → String → String
  pub has_prefix : String → String → Bool

pub record EpubChapter : Type 0 where
  pub id : String
  pub title : String
  pub content : String
  pub format : String
  pub order : String

pub record EpubImage : Type 0 where
  pub id : String
  pub url : String
  pub alt : String
  pub caption : String

pub record EpubBook : Type 0 where
  pub title : String
  pub author : String
  pub language : String
  pub description : String
  pub publisher : String
  pub date : String
  pub identifier : String
  pub content : List EpubChapter
  pub images : List EpubImage

abbrev pub numbered : String → ℕ → String
numbered prefix n = prefix <> itoa (pos n)

module _ (texts : Texts) where
  open texts use {replace_all, split_lines, join, has_prefix}

  -- A line that begins with a heading is closed.
  unfoldable pub close_heading : String → String
  close_heading line =
      if has_prefix line "<h1>"
      then line <> "</h1>"
      else if has_prefix line "<h2>"
      then replace_all (line <> "</h1>") "</h1>" "</h2>"
      else if has_prefix line "<h3>"
      then replace_all (line <> "</h1>") "</h1>" "</h3>"
      else if has_prefix line "<h4>"
      then replace_all (line <> "</h1>") "</h1>" "</h4>"
      else line

  -- Replacements in order.
  unfoldable pub replace_each : List (String × String) → String → String
  replace_each [] text = text
  replace_each ((old, new) ∷ pairs) text = replace_each pairs (replace_all text old new)

  unfoldable pub convert_ascii_doc_to_html : String → String
  unfolding replace_each close_heading
  convert_ascii_doc_to_html content =
      let marked =
        replace_each
          (("\n= ", "\n<h1>")
            ∷ ("\n== ", "\n<h2>")
            ∷ ("\n=== ", "\n<h3>")
            ∷ ("\n==== ", "\n<h4>")
            ∷ ("\n<h1>", "\n<h1>")
            ∷ ("\n<h2>", "\n<h2>")
            ∷ ("\n<h3>", "\n<h3>")
            ∷ ("\n<h4>", "\n<h4>")
            ∷ [])
          content in
      let lines = map (λ line. close_heading line) (split_lines marked) in
      replace_each (("\n\n", "\n<p>") ∷ ("\n", "<br>\n") ∷ []) (join lines "\n")

  unfoldable pub convert_markdown_to_html : String → String
  unfolding replace_each
  convert_markdown_to_html content =
      replace_each
        (("\n# ", "\n<h1>")
          ∷ ("\n## ", "\n<h2>")
          ∷ ("\n### ", "\n<h3>")
          ∷ ("\n#### ", "\n<h4>")
          ∷ ("**", "<strong>")
          ∷ ("*", "<em>")
          ∷ ("[", "<a href=\"")
          ∷ ("](", "\">")
          ∷ (")", "</a>")
          ∷ [])
        content

  unfoldable pub converted : String → String → String
  unfolding convert_ascii_doc_to_html convert_markdown_to_html
  converted format content =
      if str_eq format "asciidoc"
      then convert_ascii_doc_to_html content
      else if str_eq format "markdown"
      then convert_markdown_to_html content
      else content

  unfoldable pub sanitize_filename : String → String
  unfolding replace_each
  sanitize_filename filename =
      replace_each
        (map (λ char. (char, "_")) ("/" ∷ "\\" ∷ ":" ∷ "*" ∷ "?" ∷ "\"" ∷ "<" ∷ ">" ∷ "|" ∷ []))
        filename

  module _ {F : Type 0} (lib : Stdlib F) where
    -- A chapter; its number is its place in the sorted events, from 1.
    unfoldable pub chapter_of : ℕ → Event F → Fields F → EpubChapter
    unfolding converted get_string
    chapter_of number e content =
        let format = get_string content "format" "asciidoc" in
        record {
          id = numbered "chapter-" number;
          title = get_string content "title" (numbered "Chapter " number);
          content = converted format (get_string content "content" "");
          format = format;
          order = d_tag e.tags;
        }

    -- The images of a content, after those before it.
    unfoldable pub add_images : List (Json F) → List EpubImage → List EpubImage
    unfolding get_string
    add_images [] images = images
    add_images (img ∷ imgs) images = elim (as_object img) [
      | none ↦ add_images imgs images
      | some img_map ↦
          let image : EpubImage = record {
            id = get_string img_map "id" (numbered "image-" (length images + 1));
            url = get_string img_map "url" "";
            alt = get_string img_map "alt" "";
            caption = get_string img_map "caption" "";
          } in
          add_images imgs (images ++ image ∷ [])
    ]

    unfoldable pub images_of : Bool → Fields F → List EpubImage → List EpubImage
    unfolding add_images
    images_of include_images content images =
        if include_images
        then elim (get "images" content) [
          | none ↦ images
          | some j ↦ elim (as_array j) [ none ↦ images | some imgs ↦ add_images imgs images ]
        ]
        else images

    -- The loop over the sorted events, the first of which has the number given.
    unfoldable pub chapters_of :
        Bool → ℕ → List (Event F) → List EpubImage → List EpubChapter × List EpubImage
    unfolding chapter_of images_of
    chapters_of include_images number [] images = ([], images)
    chapters_of include_images number (e ∷ events) images = elim (decoded_object lib e.content) [
      | none ↦ chapters_of include_images (suc number) events images
      | some content ↦
          let (chapters, images) =
            chapters_of include_images (suc number) events
              (images_of include_images content images) in
          (chapter_of number e content ∷ chapters, images)
    ]

    -- The book that `generateEPUB` hands to `createEPUBFile`; `sort` is `sort.Slice`, and the date is
    -- that of the book's event.
    unfoldable pub generate_epub :
        ((Event F → Event F → Bool) → List (Event F) → List (Event F))
        → String
        → Bool
        → Book F
        → EpubBook
    unfolding chapters_of get_string
    generate_epub sort date include_images book =
        let (chapters, images) =
          chapters_of include_images 1 (sort content_less book.contents) [] in
        record {
          title = get_string book.metadata "title" "Untitled Book";
          author = get_string book.metadata "author" "Unknown Author";
          language = get_string book.metadata "language" "en";
          description = get_string book.metadata "description" "";
          publisher = "Mercury Relay";
          date = date;
          identifier = book.event.id;
          content = chapters;
          images = images;
        }

    module _ (C : Cache F) where
      -- The file's name and the book that it is made of; `none` is the panic of the type assertion
      -- on a title that is no text.
      unfoldable pub epub_file :
          ((Event F → Event F → Bool) → List (Event F) → List (Event F))
          → (Event F → String)
          → Bool
          → Book F
          → Option (String × EpubBook)
      unfolding generate_epub sanitize_filename
      epub_file sort date_of include_images book = elim (get "title" book.metadata) [
        | some (Json.str title) ↦ some (
          sanitize_filename title <> ".epub",
          generate_epub sort (date_of book.event) include_images book,
        )
        | _ ↦ none
      ]

      unfoldable pub handle_ebook_epub :
          ((Event F → Event F → Bool) → List (Event F) → List (Event F))
          → (Event F → String)
          → String
          → Bool
          → C.State
          → C.State × (ApiError C.Error ⊎ Option (String × EpubBook))
      unfolding fetch_book epub_file
      handle_ebook_epub sort date_of book_id include_images st =
          let (st, got) = fetch_book lib C book_id st in
          (
            st,
            elim got [
              | inl err ↦ inl err
              | inr book ↦ inr (epub_file sort date_of include_images book)
            ],
          )

-- `for i := range book.Content` with the number i+1.
abbrev pub items_from : {A : Type 0} → (ℕ → String) → ℕ → List A → List String
items_from item n [] = []
items_from item n (a ∷ rest) = item n ∷ items_from item (suc n) rest

abbrev pub manifest_item : ℕ → String
manifest_item n =
    "<item id=\"chapter-"
    <> itoa (pos n)
    <> "\" href=\"chapter-"
    <> itoa (pos n)
    <> ".xhtml\" media-type=\"application/xhtml+xml\"/>"

unfoldable pub generate_manifest_items : Texts → EpubBook → String
generate_manifest_items texts book = texts.join (items_from manifest_item 1 book.content) "\n    "

unfoldable pub generate_spine_items : Texts → EpubBook → String
generate_spine_items texts book =
    texts.join
      (items_from (λ n. "<itemref idref=\"chapter-" <> itoa (pos n) <> "\"/>") 1 book.content)
      "\n    "
