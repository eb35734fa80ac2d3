-- ===== src/Tests/Models.antt =====
-- Examples for internal/models.
use mercury_relay.Prelude.{◌<◌, ◌≡◌, ◌↔◌, ◌⊎◌, true, length, len}
use mercury_relay.Models.Event.{is_spam}
use mercury_relay.Models.Event.Score.{is_spam_iff}
use mercury_relay.Tests.Data.{fixed, fixed-IsIeee, note}

is_spam_iff_example :
    (is_spam fixed note 7 ≡ true)
    ↔ ((20 < length note.tags) × ((len note.content < 10) ⊎ (5000 < len note.content)))
is_spam_iff_example = is_spam_iff fixed fixed-IsIeee note
