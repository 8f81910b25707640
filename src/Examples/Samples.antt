-- ===== src/Examples/Samples.antt =====
-- Providers and registries for the examples; the times are small numbers.
use aistudio_gemini_gateway.Base.{[], bytes, pos, text_eq}
use aistudio_gemini_gateway.Service.Provider.{RuntimeProvider, active}

abbrev pub studio : RuntimeProvider
studio = record {
  id = bytes "a";
  connection_id = bytes "c1";
  label = bytes "A";
  state = active;
  priority = pos 1;
  connected_at = 5;
  last_seen_at = 5;
  cooldown_until = 0;
  tags = [];
  metadata = record { provider_type = bytes "aistudio"; request_headers = []; attributes = [] };
}

-- The same provider on a new connection.
abbrev pub studio_again : RuntimeProvider
studio_again = record studio { connection_id = bytes "c2" }

abbrev pub backup : RuntimeProvider
backup = record studio { id = bytes "b"; connection_id = bytes "c3"; label = bytes "B" }
