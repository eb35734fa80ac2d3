-- ===== src/Storage/Uploads.antt =====
-- What an upload tells the server (internal/storage/xftp.go).
use mercury_relay.Prelude.{String, ◌≡◌, ◌≢◌, none, arith}
use mercury_relay.Models.Event.{Event}
use mercury_relay.Models.Codec.{Codec}
use mercury_relay.Storage.Xftp.{HttpClient, upload_request, store_event}

module _ (H : HttpClient) (base_url : String) {F : Type 0} (codec : Codec F) where
  -- Two events that marshal, of the same identifier, kind and author, are stored alike, whatever their content,
  -- tags, times and signatures: what the server is sent, and holds afterwards, does not depend on
  -- them.
  pub store_event_alike :
      (e f : Event F) (st : H.State)
      → codec.marshal e ≢ none
      → codec.marshal f ≢ none
      → e.id ≡ f.id
      → e.kind ≡ f.kind
      → e.pub_key ≡ f.pub_key
      → store_event H base_url codec e st ≡ store_event H base_url codec f st
  unfolding store_event upload_request
  store_event_alike e f st me mf same_id same_kind same_author =
      ground (arith, me, mf, same_id, same_kind, same_author)
