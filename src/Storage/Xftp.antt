-- ===== src/Storage/Xftp.antt =====
-- internal/storage/xftp.go, over net/http.
use mercury_relay.Prelude.{
  ℕ, String, ◌<>◌, str_eq, ◌⊎◌, inl, inr, Option, none, some, List, [], ◌∷◌, ◌==◌, if◌then◌else◌,
}
use mercury_relay.Prelude.Decimal.{itoa}
use mercury_relay.Models.Event.{Event}
use mercury_relay.Models.Codec.{Codec}
use mercury_relay.Config.Settings.{XftpConfig}

pub record HttpRequest : Type 0 where
  pub method : String
  pub url : String
  pub headers : List (String × String)
  pub body : Option String

pub record HttpResponse : Type 0 where
  pub status : ℕ
  pub body : String

-- `http.NewRequest`, which fails on an address that does not parse, and `httpClient.Do`.
pub record HttpClient : Type 1 where
  pub State : Type 0
  pub Error : Type 0
  pub parses : String → Option Error
  pub send : HttpRequest → State → State × (Error ⊎ HttpResponse)

pub data StorageError (E : Type 0) : Type 0 where
  marshal_failed event_not_found decode_failed : StorageError E
  request_failed transfer_failed : E → StorageError E
  bad_status : ℕ → StorageError E

-- The address of `NewXFTP`.
unfoldable pub new_xftp : XftpConfig → String
new_xftp config = if str_eq config.server_url "" then "http://localhost:443" else config.server_url

module _ (H : HttpClient) (base_url : String) where
  abbrev pub Err : Type 0
  Err = StorageError H.Error

  -- A request that is created and sent.
  unfoldable pub exchange : HttpRequest → H.State → H.State × (Err ⊎ HttpResponse)
  exchange req st = elim (H.parses req.url) [
    | some err ↦ (st, inl (request_failed err))
    | none ↦
        let (st, got) = H.send req st in
        (st, elim got [ inl err ↦ inl (transfer_failed err) | inr response ↦ inr response ])
  ]

  -- The test of the status that all methods end with.
  unfoldable pub expect_ok : Err ⊎ HttpResponse → Err ⊎ HttpResponse
  expect_ok (inl err) = inl err
  expect_ok (inr response) =
      if response.status == 200 then inr response else inl (bad_status response.status)

  module _ {F : Type 0} (codec : Codec F) where
    -- The request of `StoreEvent`: the JSON of the event is computed and not sent.
    unfoldable pub upload_request : Event F → HttpRequest
    upload_request e = record {
      method = "POST";
      url = base_url <> "/upload";
      headers =
          ("Content-Type", "application/json")
          ∷ ("X-Event-ID", e.id)
          ∷ ("X-Event-Kind", itoa e.kind)
          ∷ ("X-Event-Author", e.pub_key)
          ∷ [];
      body = none;
    }

    unfoldable pub store_event : Event F → H.State → H.State × Option Err
    unfolding upload_request exchange expect_ok
    store_event e st = elim (codec.marshal e) [
      | none ↦ (st, some marshal_failed)
      | some _ ↦
          let (st, got) = exchange (upload_request e) st in
          (st, elim (expect_ok got) [ inl err ↦ some err | inr response ↦ none ])
    ]

    -- What `GetEvent` makes of an answer.
    unfoldable pub read_download : Err ⊎ HttpResponse → Err ⊎ Event F
    unfolding expect_ok
    read_download (inl err) = inl err
    read_download (inr response) =
        if response.status == 404 then inl event_not_found else elim (expect_ok (inr response)) [
          | inl err ↦ inl err
          | inr ok ↦ elim (codec.unmarshal ok.body) [ none ↦ inl decode_failed | some e ↦ inr e ]
        ]

    unfoldable pub get_event : String → H.State → H.State × (Err ⊎ Event F)
    unfolding exchange read_download
    get_event event_id st =
        let (st, got) =
          exchange
            (record {
              method = "GET";
              url = base_url <> "/download/" <> event_id;
              headers = [];
              body = none;
            })
            st in
        (st, read_download got)

  unfoldable pub delete_event : String → H.State → H.State × Option Err
  unfolding exchange expect_ok
  delete_event event_id st =
      let (st, got) =
        exchange
          (record {
            method = "DELETE";
            url = base_url <> "/delete/" <> event_id;
            headers = [];
            body = none;
          })
          st in
      (st, elim (expect_ok got) [ inl err ↦ some err | inr response ↦ none ])

  -- `GetStats`, with the decoder of its answer.
  unfoldable pub get_stats :
      {Stats : Type 0} → (String → Option Stats) → H.State → H.State × (Err ⊎ Stats)
  unfolding exchange expect_ok
  get_stats decode st =
      let (st, got) =
        exchange (record { method = "GET"; url = base_url <> "/stats"; headers = []; body = none })
          st in
      (
        st,
        elim (expect_ok got) [
          | inl err ↦ inl err
          | inr response ↦ elim (decode response.body) [
            | none ↦ inl decode_failed
            | some stats ↦ inr stats
          ]
        ],
      )
