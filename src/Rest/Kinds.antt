-- ===== src/Rest/Kinds.antt =====
-- internal/api/rest.go: the queues by kind.
use mercury_relay.Prelude.{
  ℕ, zero, suc, String, ◌<>◌, str_eq, ◌&&◌, ◌⊎◌, inl, inr, Option, none, some, List, [], ◌∷◌, ◌++◌,
  ℤ, pos, negsuc, eq_ℤ, ltb, leb, length, if◌then◌else◌,
}
use mercury_relay.Prelude.Decimal.{atoi, itoa}
use mercury_relay.Models.Event.{Event}
use mercury_relay.Queue.{Queue}
use mercury_relay.Rest.Requests.{ApiError, invalid_kind, stats_failed}

pub record KindEvents (F : Type 0) : Type 0 where
  pub kind : ℤ
  pub events : List (Event F)
  pub count : ℕ

pub record KindStats : Type 0 where
  pub kind : ℤ
  pub description : Option String
  pub message_count : ℕ
  pub queue_name : String

-- The limit of `HandleKindEvents`.
unfoldable pub kind_limit : String → ℕ
kind_limit limit =
    if str_eq limit ""
    then 10
    else elim (atoi limit) [ some (pos n) ↦ if ltb 0 n && leb n 100 then n else 10 | _ ↦ 10 ]

-- `fmt.Sprintf("nostr_kind_%d", kind)`
abbrev pub kind_queue_name : ℤ → String
kind_queue_name kind = "nostr_kind_" <> itoa kind

unfoldable pub kind_description : ℤ → String
kind_description kind =
    if eq_ℤ kind (pos 0)
    then "Profile metadata"
    else if eq_ℤ kind (pos 1)
    then "Short notes/text posts"
    else if eq_ℤ kind (pos 3)
    then "Contacts/follow list"
    else if eq_ℤ kind (pos 7)
    then "Reactions"
    else if eq_ℤ kind (pos 10002)
    then "Relay lists"
    else if eq_ℤ kind (negsuc 0)
    then "Undefined/Unknown kinds"
    else if eq_ℤ kind (negsuc 1)
    then "Moderation/Invalid events"
    else "Kind " <> itoa kind <> " events"

module _ {F : Type 0} (Q : Queue F) where
  -- The loop of `HandleKindEvents`, for the calls that are left; an error ends it without a reply of
  -- its own.
  unfoldable pub consume_up_to : ℕ → ℤ → Q.State → List (Event F) → Q.State × List (Event F)
  consume_up_to zero kind q events = (q, events)
  consume_up_to (suc n) kind q events =
      let (q', got) = Q.consume_events_by_kind kind q in
      elim got [
        | inl err ↦ (q', events)
        | inr [] ↦ (q', events)
        | inr (e ∷ es) ↦ consume_up_to n kind q' (events ++ e ∷ es)
      ]

  unfoldable pub handle_kind_events :
      String → String → Q.State → Q.State × (ApiError Q.Error ⊎ KindEvents F)
  unfolding consume_up_to kind_limit
  handle_kind_events kind_text limit q = elim (atoi kind_text) [
    | none ↦ (q, inl invalid_kind)
    | some kind ↦
        let (q', events) = consume_up_to (kind_limit limit) kind q [] in
        (q', inr (record { kind = kind; events = events; count = length events }))
  ]

  unfoldable pub handle_kind_stats : String → Q.State → ApiError Q.Error ⊎ KindStats
  handle_kind_stats kind_text q = elim (atoi kind_text) [
    | none ↦ inl invalid_kind
    | some kind ↦ elim (Q.get_kind_queue_stats kind q) [
      | inl err ↦ inl (stats_failed err)
      | inr n ↦ inr (record {
        kind = kind;
        description = none;
        message_count = n;
        queue_name = kind_queue_name kind;
      })
    ]
  ]

  -- The entries of the reply; each stands under the name "kind_%d".
  unfoldable pub describe_kinds : List (ℤ × ℕ) → List (String × KindStats)
  unfolding kind_description
  describe_kinds [] = []
  describe_kinds ((kind, n) ∷ stats) =
      (
        "kind_" <> itoa kind,
        record {
          kind = kind;
          description = some (kind_description kind);
          message_count = n;
          queue_name = kind_queue_name kind;
        },
      )
      ∷ describe_kinds stats

  unfoldable pub handle_all_kind_stats :
      Q.State → ApiError Q.Error ⊎ (List (String × KindStats) × ℕ)
  unfolding describe_kinds
  handle_all_kind_stats q = elim (Q.get_all_kind_queue_stats q) [
    | inl err ↦ inl (stats_failed err)
    | inr stats ↦ inr (describe_kinds stats, length stats)
  ]
