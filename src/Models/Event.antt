-- ===== src/Models/Event.antt =====
-- internal/models/event.go: the event, its conversions, its validation and its quality score.
pub mod Validity
pub mod Score
use mercury_relay.Prelude.{
  ℕ, ◌+◌, ◌*◌, String, len, str_eq, Bool, true, false, ◌&&◌, ◌||◌, Option, none, some, List, [], ℤ,
  pos, scale, shift, ltb_ℤ, ltb, leb, length, if◌then◌else◌,
}
use mercury_relay.Prelude.Float.{Float}

-- `nostr.Tags`, a list of lists of texts.
abbrev pub Tags : Type 0
Tags = List (List String)

-- `models.Event`, over the type of floats. `none` is Go's zero `time.Time`.
pub record Event (F : Type 0) : Type 0 where
  pub id : String
  pub pub_key : String
  pub created_at : ℤ
  pub kind : ℤ
  pub tags : Tags
  pub content : String
  pub sig : String
  pub quality_score : F
  pub is_quarantined : Bool
  pub quarantine_reason : String
  pub created_at_db : Option ℕ

-- The fields of `nostr.Event` that the program reads and writes.
pub record NostrEvent : Type 0 where
  pub id : String
  pub pub_key : String
  pub created_at : ℤ
  pub kind : ℤ
  pub tags : Tags
  pub content : String
  pub sig : String

-- Times and durations are whole nanoseconds; a clock reading counts from 1970.
abbrev pub second : ℕ
second = 1000000000

abbrev pub minute : ℕ
minute = 60000000000

abbrev pub hour : ℕ
hour = 3600000000000

-- `Timestamp.Time()`, without the wrap-around that `time.Unix` has near the ends of `int64`.
abbrev pub unix_time : ℤ → ℤ
unix_time t = scale second t

pub data ValidationError : Type 0 where
  event_too_old event_in_future content_too_long missing_required_fields : ValidationError

module _ {F : Type 0} where
  unfoldable pub to_nostr_event : Event F → NostrEvent
  to_nostr_event e = record {
    id = e.id;
    pub_key = e.pub_key;
    created_at = e.created_at;
    kind = e.kind;
    tags = e.tags;
    content = e.content;
    sig = e.sig;
  }

  -- `Validate`. The clock is read twice: `since` for the age, `now` for the future. An error is
  -- `some`, Go's nil is `none`.
  unfoldable pub validate : ℕ → ℕ → Event F → Option ValidationError
  validate since now e =
      if ltb_ℤ (shift hour (unix_time e.created_at)) (pos since)
      then some event_too_old
      else if ltb_ℤ (pos (now + 5 * minute)) (unix_time e.created_at)
      then some event_in_future
      else if ltb 10000 (len e.content)
      then some content_too_long
      else if str_eq e.id "" || str_eq e.pub_key "" || str_eq e.sig ""
      then some missing_required_fields
      else none

module _ (R : Float) where
  open R use {F, tenths, add, sub, lt}

  -- The zero values of the fields that `FromNostrEvent` does not set.
  unfoldable pub from_nostr_event : NostrEvent → ℕ → Event F
  from_nostr_event ne now = record {
    id = ne.id;
    pub_key = ne.pub_key;
    created_at = ne.created_at;
    kind = ne.kind;
    tags = ne.tags;
    content = ne.content;
    sig = ne.sig;
    quality_score = tenths 0;
    is_quarantined = false;
    quarantine_reason = "";
    created_at_db = some now;
  }

  -- The score before the two final tests.
  unfoldable pub raw_score : ℕ → ℕ → F
  raw_score size count =
      let score = tenths 10 in
      let score = if ltb size 10 then sub score (tenths 2) else score in
      let score = if ltb 5000 size then sub score (tenths 1) else score in
      let score = if leb 50 size && leb size 1000 then add score (tenths 1) else score in
      let score = if ltb 20 count then sub score (tenths 3) else score in
      if leb 1 count && leb count 5 then add score (tenths 1) else score

  -- `if score < 0 { score = 0 }; if score > 1 { score = 1 }`
  unfoldable pub clamp : F → F
  clamp score =
      let score = if lt score (tenths 0) then tenths 0 else score in
      if lt (tenths 10) score then tenths 10 else score

  unfoldable pub calculate_quality_score : Event F → F
  unfolding raw_score clamp
  calculate_quality_score e = clamp (raw_score (len e.content) (length e.tags))

  unfoldable pub is_spam : Event F → F → Bool
  unfolding calculate_quality_score
  is_spam e threshold = lt (calculate_quality_score e) threshold
