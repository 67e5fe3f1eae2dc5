-- ===== src/Beacon/Api/Requests.antt =====
-- What the client of crates/beacon/src/api/mod.rs makes of the beacon node's responses.
use Prim.Native.String.{String}
use rs_mev_relay.Prelude.{ℕ, List, ◌++◌, Result, ok, ◌≡◌, ◌↔◌, arith, true}
use rs_mev_relay.Primitives.Blocks.{SignedBeaconBlockContent}
use rs_mev_relay.Beacon.Types.{SubmissionType}
use rs_mev_relay.Beacon.Api.{
  Libraries, Response, is_success, error_response, get_api_response, post_request,
  post_api_response, publish_block, publish_block_path,
}

module _ (l : Libraries) (url : List ℕ) where
  -- A request of the client succeeds exactly when the node answers with a status of success, and a
  -- body that is read as the value: a body that could be read does not help an error's status.
  pub get_api_response-eq-ok_iff :
      {T : Type 0} (read : String → Result String T) (path : List ℕ) (value : T)
      → (get_api_response l url read path ≡ ok value) ↔ (
          (resp : Response) × (l.get (url ++ path) ≡ ok resp)
          × (is_success resp.status ≡ true)
          × (read resp.body ≡ ok value))
  unfolding get_api_response error_response
  get_api_response-eq-ok_iff read path value = ground arith

  -- A block counts as published whatever the node answers: the call succeeds exactly when there is
  -- any response, of any status.
  pub publish_block-eq-ok_iff :
      (block : SignedBeaconBlockContent) (submission_type : SubmissionType)
      → (publish_block l url block submission_type ≡ ok tt) ↔ (
          (resp : Response) × (l.post (post_request l url publish_block_path block submission_type)
            ≡ ok resp))
  unfolding publish_block post_api_response
  publish_block-eq-ok_iff block submission_type = ground arith
