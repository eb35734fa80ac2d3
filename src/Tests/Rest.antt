-- ===== src/Tests/Rest.antt =====
-- Examples for the REST interface.
use mercury_relay.Prelude.{
  ℕ, ◌≤◌, String, ◌≡◌, ◌↔◌, refl, Bool, true, inr, some, List, [], ◌∷◌, pos, length, lookup,
}
use mercury_relay.Prelude.Decimal.{atoi, read_digits}
use mercury_relay.Prelude.Json
use mercury_relay.Models.Event.{Event}
use mercury_relay.Queue.Rabbit.{Amqp}
use mercury_relay.Queue.Rabbit.Kinds.{missing}
use mercury_relay.Queue.Rabbit.Operations.{rabbit_queue, consume_events_by_kind, consume_from}
use mercury_relay.Auth.Universal.{UniversalAuthenticator, new_universal_authenticator}
use mercury_relay.Rest.Requests.{handle_publish}
use mercury_relay.Rest.Publishing.{succeeded, IsPublished, handle_publish_iff}
use mercury_relay.Rest.Kinds.{KindEvents, handle_kind_events, kind_limit, consume_up_to}
use mercury_relay.Rest.Draining.{handle_kind_events-length}
use mercury_relay.Rest.Structure.{build_book_structure}
use mercury_relay.Rest.Preorder.{preorder, content_nodes, preorder-build_book_structure}
use mercury_relay.Rest.Whitelist.{AdminRequest, add, serve, verdict, lookup-serve}
use mercury_relay.Rest.History.{calculate_event_diff, empty_diff}
use mercury_relay.Rest.Diff.{IsDiff, calculate_event_diff-IsDiff}
use mercury_relay.Tests.Data.{fixed, stdlib, fifo, quality, note, noon}
use mercury_relay.Tests.Queue.{broker, config}
use mercury_relay.Tests.Cache.{codec}

handle_publish_iff_example :
    (succeeded (handle_publish fixed stdlib fifo noon noon noon (some note) (some quality) []).reply
      ≡ true)
    ↔ IsPublished fixed stdlib fifo noon noon noon quality [] note
handle_publish_iff_example = handle_publish_iff fixed stdlib fifo noon noon noon note quality []

-- A broker that always has a message.
abbrev full : Amqp
full = record broker { get = λ queue st. (st, inr (some "m")) }

abbrev two_events : KindEvents ℕ
two_events = record {
  kind = pos 1;
  events = record note { id = "m" } ∷ record note { id = "m" } ∷ [];
  count = 2;
}

drained :
    (handle_kind_events (rabbit_queue full codec config missing noon) "1" "2" 4).1 ≡ inr two_events
unfolding handle_kind_events consume_up_to kind_limit atoi read_digits consume_events_by_kind
    consume_from
drained = refl

handle_kind_events-length_example : (length two_events.events ≤ 100) × (two_events.count ≡ 2)
handle_kind_events-length_example =
    handle_kind_events-length full codec config missing noon "1" "2" 4 drained

-- A chapter, its section, and the next chapter.
abbrev content : String → Event ℕ
content d = record note { tags = ("d" ∷ d ∷ []) ∷ []; content = "{}" }

abbrev contents : List (Event ℕ)
contents = content "chapter-1" ∷ content "chapter-1-section-1" ∷ content "chapter-2" ∷ []

abbrev unsorted : (Event ℕ → Event ℕ → Bool) → List (Event ℕ) → List (Event ℕ)
unsorted less events = events

preorder-build_book_structure_example :
    preorder (build_book_structure stdlib unsorted contents (pos 3)) ≡ content_nodes stdlib contents
preorder-build_book_structure_example =
    preorder-build_book_structure stdlib unsorted contents (pos 3)

abbrev authenticator : UniversalAuthenticator
authenticator = new_universal_authenticator ("alice" ∷ []) "wss://relay"

-- Mallory's addition changes nothing; alice adds bob.
abbrev requests : List (String × AdminRequest)
requests = ("mallory", add (some "mallory")) ∷ ("alice", add (some "bob")) ∷ []

lookup-serve_example :
    lookup "bob" (serve requests authenticator).whitelist
    ≡ verdict authenticator.admin_npubs "bob" (lookup "bob" authenticator.whitelist) requests
lookup-serve_example = lookup-serve "bob" requests authenticator

abbrev first_version : Json.Fields ℕ
first_version = Json.entry "event_id" (Json.str "a") Json.end

abbrev second_version : Json.Fields ℕ
second_version = Json.entry "event_id" (Json.str "b") (Json.entry "hash" (Json.str "h") Json.end)

abbrev sprint : Json.Json ℕ → String
sprint (Json.str s) = s
sprint _ = ""

calculate_event_diff-IsDiff_example :
    IsDiff sprint first_version second_version
      ("event_id" ∷ "created_at" ∷ "hash" ∷ [])
      empty_diff
      (calculate_event_diff sprint first_version second_version)
calculate_event_diff-IsDiff_example =
    calculate_event_diff-IsDiff sprint first_version second_version
