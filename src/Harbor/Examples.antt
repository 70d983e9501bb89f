-- ===== src/Harbor/Examples.antt =====
-- The theorem on the preflight at a small fixture.
use network_analytics_predic.Harbor.State.{create_initial_state, visible_relationships, Analysis}
use network_analytics_predic.Graph.{Relationship, Settings}
use network_analytics_predic.Harbor.Report.{run_preflight-passed, Fixture, run_preflight}
use network_analytics_predic.Prelude.{
  length, ltb, eqb, not, false, ◌&&◌, true, ◌≡◌, String, ◌∷◌, [],
}

abbrev case_settings : Settings
case_settings = record {
  alias_included = true;
  window_days = 30;
  relation_filter = "all";
  comparison_mode = "side-by-side";
  split_count = 2;
  split_boundary_percent = 50;
  split_strategy = "algorithmic-largest-gap";
  label_density = "comfortable";
  spacing = 1;
  high_contrast = false;
  show_communities = true;
}

abbrev case_link : String → Relationship
case_link id = record {
  id = id;
  subject = "elena";
  object = "northstar";
  predicate = "reported employed by";
  relation = "employment";
  periods = "before" ∷ "after" ∷ [];
  status = "uncertain";
  event_time = "2026-02-03";
  known_at = "2026-02-05";
  evidence_class = "source report";
  confidence = "moderate";
  reliability = "B";
  credibility = "2";
  source = "Port access roster";
  reasoning = "Named in the roster";
  caveat = "Identity disputed";
  community_before = "A";
  community_after = "A1";
}

abbrev fixture : Fixture
fixture = record {
  question = "Did the group change?";
  relationships = case_link "r1" ∷ case_link "r2" ∷ [];
  defaults = case_settings;
}

abbrev narrowed : Analysis
narrowed = record (create_initial_state case_settings) {
  settings = record case_settings { window_days = 14 };
}

preflight_example : (run_preflight fixture narrowed).passed ≡ (
    narrowed.journey.evidence_inspected
    && narrowed.journey.reasoning_inspected
    && narrowed.journey.alternative_reviewed
    && narrowed.journey.recommendation_acknowledged
    && narrowed.finding_ready
    && (narrowed.settings.alias_included && not (eqb narrowed.settings.window_days 14))
    && ltb 0 (length (visible_relationships fixture.relationships narrowed.settings)))
preflight_example = run_preflight-passed fixture narrowed
