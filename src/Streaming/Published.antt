-- ===== src/Streaming/Published.antt =====
-- What becomes of an upstream event (internal/streaming/upstream.go).
use mercury_relay.Prelude.{
  ℕ, String, ◌≡◌, inl, inr, Option, none, some, List, [], ◌∷◌, arith, Option-cases, Bool-cases,
  str_eq,
}
use mercury_relay.Prelude.Float.{Float}
use mercury_relay.Prelude.Json
use mercury_relay.Prelude.Json.{Json, Fields, Stdlib, as_string, as_object, as_array}
use mercury_relay.Models.Event.{Event, validate}
use mercury_relay.Queue.{Queue}
use mercury_relay.Cache.{Cache}
use mercury_relay.Quality.Controller.{graded, validate_event}
use mercury_relay.Quality.Controller.Verdict.{
  GoesThrough, validate_event-GoesThrough, validate_event_passed,
}
use mercury_relay.Streaming.Messages.{
  Shared, parse_upstream_event, accept_upstream_event, handle_upstream_event,
  handle_upstream_message, dispatch_upstream, handle_upstream_items, handle_upstream_decoded,
}

module _ (R : Float) (lib : Stdlib R.F) (Q : Queue R.F) where
  open R use {F}

  module _ (C : Cache F) (since now later : ℕ) where
    passed :
        (s : Shared R lib Q C) (e : Event F)
        → validate since now e ≡ none
        → (validate_event R lib Q later s.quality_control s.queue e).error ≡ none
        → let g = graded R lib s.quality_control e in
          let after = accept_upstream_event R lib Q C since now later e s in
          (after.queue ≡ (Q.publish_event g (Q.publish_event g s.queue).0).0)
          × (after.cache ≡ (C.store_event g s.cache).0)
    unfolding accept_upstream_event
    passed s e v h =
        ground (arith, validate_event_passed R lib Q later s.quality_control s.queue e h)

    -- An EVENT message of an upstream relay whose event is valid and goes through the quality
    -- control is stored once, graded, and published twice: by the quality controller and again by
    -- the manager.
    pub handle_upstream_message_passed :
        (message id : String) (items : Json.Items F) (fs : Fields F) (args : List (Json F))
        (s : Shared R lib Q C)
        → lib.decode message ≡ some (Json.arr items)
        → Json.to_list items ≡ Json.str "EVENT" ∷ Json.str id ∷ Json.obj fs ∷ args
        → validate since now (parse_upstream_event R fs) ≡ none
        → GoesThrough R lib Q later s.quality_control s.queue (parse_upstream_event R fs)
        → let g = graded R lib s.quality_control (parse_upstream_event R fs) in
          let after = (handle_upstream_message R lib Q C since now later message s).0 in
          (after.queue ≡ (Q.publish_event g (Q.publish_event g s.queue).0).0)
          × (after.cache ≡ (C.store_event g s.cache).0)
    unfolding handle_upstream_message
    handle_upstream_message_passed message id items fs args s d e v through =
        let h =
          (validate_event-GoesThrough R lib Q later s.quality_control s.queue
              (parse_upstream_event R fs)).1
            through in
        rw (d, e) (passed s (parse_upstream_event R fs) v h)

    -- What may have become of the cache.
    pub data Cached (s : Shared R lib Q C) : C.State → Type 0 where
      same : Cached s s.cache
      stored :
          (fs : Fields F)
          → validate since now (parse_upstream_event R fs) ≡ none
          → GoesThrough R lib Q later s.quality_control s.queue (parse_upstream_event R fs)
          → Cached s
              (C.store_event (graded R lib s.quality_control (parse_upstream_event R fs)) s.cache).0

    accept-Cached :
        (fs : Fields F) (s : Shared R lib Q C)
        → Cached s
            (accept_upstream_event R lib Q C since now later (parse_upstream_event R fs) s).cache
    unfolding accept_upstream_event
    accept-Cached fs s =
        let e = parse_upstream_event R fs in
        elim (Option-cases (validate since now e)) [
          | inr (err, v) ↦ rw (accept_upstream_event, v) same
          | inl v ↦
              elim (Option-cases (validate_event R lib Q later s.quality_control s.queue e).error) [
                | inr (err, h) ↦ rw (accept_upstream_event, v, h) same
                | inl h ↦
                    rw
                      (
                        accept_upstream_event,
                        v,
                        h,
                        (validate_event_passed R lib Q later s.quality_control s.queue e h).0,
                      )
                      (stored fs v (
                        (validate_event-GoesThrough R lib Q later s.quality_control s.queue e).0 h))
              ]
        ]

    event-Cached :
        (args : List (Json F)) (s : Shared R lib Q C)
        → Cached s (handle_upstream_event R lib Q C since now later args s).0.cache
    unfolding handle_upstream_event
    event-Cached [] s = same
    event-Cached (id ∷ []) s = same
    event-Cached (id ∷ arg ∷ args) s = elim (Option-cases (as_string id)) [
      | inl e ↦ rw (handle_upstream_event, e) same
      | inr (name, e) ↦ elim (Option-cases (as_object arg)) [
        | inl f ↦ rw (handle_upstream_event, e, f) same
        | inr (fs, f) ↦ rw (handle_upstream_event, e, f) (accept-Cached fs s)
      ]
    ]

    dispatch-Cached :
        (msg_type : String) (args : List (Json F)) (s : Shared R lib Q C)
        → Cached s (dispatch_upstream R lib Q C since now later msg_type args s).0.cache
    unfolding dispatch_upstream
    dispatch-Cached msg_type args s = elim (Bool-cases (str_eq msg_type "EVENT")) [
      | inl e ↦ rw e (event-Cached args s)
      | inr e ↦ elim (Bool-cases (str_eq msg_type "EOSE")) [
        | inl f ↦ rw (e, f) same
        | inr f ↦ elim (Bool-cases (str_eq msg_type "NOTICE")) [
          | inl g ↦ rw (e, f, g) same
          | inr g ↦ rw (e, f, g) same
        ]
      ]
    ]

    items-Cached :
        (items : List (Json F)) (s : Shared R lib Q C)
        → Cached s (handle_upstream_items R lib Q C since now later items s).0.cache
    unfolding handle_upstream_items
    items-Cached [] s = same
    items-Cached (item ∷ []) s = same
    items-Cached (item ∷ arg ∷ args) s = elim (Option-cases (as_string item)) [
      | inl e ↦ rw (handle_upstream_items, e) same
      | inr (msg_type, e) ↦ rw (handle_upstream_items, e) (dispatch-Cached msg_type (arg ∷ args) s)
    ]

    decoded-Cached :
        (decoded : Option (Json F)) (s : Shared R lib Q C)
        → Cached s (handle_upstream_decoded R lib Q C since now later decoded s).0.cache
    unfolding handle_upstream_decoded
    decoded-Cached none s = same
    decoded-Cached (some Json.null) s = items-Cached [] s
    decoded-Cached (some (Json.boolean b)) s = same
    decoded-Cached (some (Json.num x)) s = same
    decoded-Cached (some (Json.str t)) s = same
    decoded-Cached (some (Json.arr items)) s = items-Cached (Json.to_list items) s
    decoded-Cached (some (Json.obj fs)) s = same

    -- No message of an upstream relay puts anything in the cache but an event that is valid and
    -- goes through the quality control, and that one graded.
    pub handle_upstream_message-Cached :
        (message : String) (s : Shared R lib Q C)
        → Cached s (handle_upstream_message R lib Q C since now later message s).0.cache
    unfolding handle_upstream_message
    handle_upstream_message-Cached message s = decoded-Cached (lib.decode message) s
