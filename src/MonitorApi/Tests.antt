-- ===== src/MonitorApi/Tests.antt =====
-- Runs of the API on concrete entries, and the theorems at them.
use snapshot_sequencer_valid.Base.{text_eq, bytes, true, [], ◌≡◌, refl}
use snapshot_sequencer_valid.Redis.Join.{split, push_byte}
use snapshot_sequencer_valid.Gateway.{SubmissionMetadata, generate_entity_id}
use snapshot_sequencer_valid.MonitorApi.{get_queue_status}
use snapshot_sequencer_valid.MonitorApi.Timeline.{
  parse_entity_id, parse_enhanced, some_of, all_of, event_metadata, get_failed,
}
use snapshot_sequencer_valid.MonitorApi.Unread.{Unplaced, of_gateway, event_metadata-Unplaced}

abbrev submission : SubmissionMetadata
submission = record {
  epoch_id = 12;
  slot_id = 3;
  project_id = bytes "proj";
  peer_id = bytes "12D3KooW";
  timestamp = 1700;
  data_market = bytes "m";
  node_version = [];
  message_size = 40;
  topic_name = bytes "t";
}

event_metadata-Unplaced_example :
    Unplaced (event_metadata true (bytes "submission") (generate_entity_id submission).0 get_failed)
event_metadata-Unplaced_example = event_metadata-Unplaced true submission get_failed of_gateway

enhanced : (parse_entity_id (bytes "12:3:ab:cd") (bytes "submission")).slot_id ≡ bytes "3"
unfolding parse_entity_id parse_enhanced some_of all_of split push_byte
enhanced = refl

statuses : (get_queue_status 99 ≡ bytes "healthy") × (get_queue_status 1000 ≡ bytes "critical")
unfolding get_queue_status
statuses = (refl, refl)
