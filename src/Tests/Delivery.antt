-- ===== src/Tests/Delivery.antt =====
-- The worker on a Redis and a database in memory.
use omnibioai_security_audit.Prelude.{lookup, insert, is_some, ◌∷◌, ◌≡◌, true, refl, inl, [], none}
use omnibioai_security_audit.Alerts.{no_alerts}
use omnibioai_security_audit.Worker.World.{Env, World}
use omnibioai_security_audit.Config.{
  require_record_integrity_key, check_key, is_key_id, check_independent,
}
use omnibioai_security_audit.Crypto.{compare_digest, is_ascii}
use omnibioai_security_audit.Event.{make_event, validate_tenant_scope}
use omnibioai_security_audit.Processor.{parse_audit_event, classify_event_integrity}
use omnibioai_security_audit.RecordIntegrity.{compute_audit_event_hash, hash_fields}
use omnibioai_security_audit.RecordIntegrity.Cells.{get}
use omnibioai_security_audit.RecordIntegrity.Message.{
  canonical_message, canonical_parts, field_text, timestamp_text, context_text, canonical_json,
  to_naive_utc,
}
use omnibioai_security_audit.Sink
use omnibioai_security_audit.Stream.{
  ensure_group, claim_stale, claim_if_stale, claim_entries, fetch_poison, poison_ids, claim,
  reclaimable_ids, deliveries_by_id, read_group, ack,
}
use omnibioai_security_audit.Worker.Message.{
  handle_message, handle_parsed, persist_and_ack, classified, acknowledge,
}
use omnibioai_security_audit.Worker.Loop.{
  run, iterations, iteration, sweep_pending, swept, quarantine_all, handle_all, read_messages,
  handle_response,
}
use omnibioai_security_audit.Worker.Accounted.{IsAccounted}
use omnibioai_security_audit.Worker.Accounted.Run.{run-IsAccounted}
use omnibioai_security_audit.Tests.Memory.{
  add, is_acked, Server, Tables, server, content, server-IsReliable, memory, memory-IsAppendOnly,
}
use omnibioai_security_audit.Tests.Services.{lib, cfg, runtime}

abbrev env : Env Server Tables
env = record { lib = lib; cfg = cfg; runtime = runtime; redis = server; db = memory }

abbrev world : World Server Tables
world = record {
  stream = record { deliveries = 0; acked = [] };
  tables = record { events = []; quarantined = [] };
  alerts = no_alerts;
  last_attempt = none;
  draws = 0;
  slept = 0;
}

run-IsAccounted_example : IsAccounted env content "1-0" (run env 3 world).1
unfolding is_acked
run-IsAccounted_example =
    run-IsAccounted env content server-IsReliable memory-IsAppendOnly "1-0" 3 world (inl refl)

-- One round stores the entry and acknowledges it.
stored_and_acked :
    let w = (run env 1 world).1 in
    (is_some (lookup "e1" w.tables.events) ≡ true) × (w.stream.acked ≡ "1-0" ∷ [])
unfolding run lookup insert ensure_group iterations iteration sweep_pending claim_stale
    claim_if_stale claim_entries fetch_poison poison_ids claim reclaimable_ids deliveries_by_id
    is_acked swept quarantine_all handle_all read_messages read_group handle_response handle_message
    handle_parsed parse_audit_event make_event validate_tenant_scope persist_and_ack classified
    classify_event_integrity acknowledge ack Sink.write Sink.write_row Sink.build_row
    Sink.unhashed_row Sink.event_record to_naive_utc require_record_integrity_key check_key
    is_key_id check_independent compare_digest is_ascii compute_audit_event_hash hash_fields
    canonical_message canonical_parts get field_text timestamp_text context_text canonical_json add
stored_and_acked = (refl, refl)
