-- ===== src/Gates/Defaults.antt =====
-- packages/predictive/model-gates.mjs: `candidate`, `DEFAULT_DEPENDENCIES` and `DEFAULT_CANDIDATES`, which are
-- evaluated where none are given.
use network_analytics_predic.Gates.Candidate.{Candidate, Metrics}
use network_analytics_predic.Gates.Leakage.{Dependency}
use network_analytics_predic.Prelude.{List, String, [], ◌∷◌, none, some}

abbrev pub default_dependency : String → String → Dependency
default_dependency id event_time = record {
  id = some id;
  event_time = some event_time;
  known_at = some "2026-04-04T18:00:00Z";
  label_known_at = some "2026-04-05T00:00:00Z";
  scaler_fit_at = some "2026-04-04T12:00:00Z";
  feature_window_end = none;
}

abbrev pub default_dependencies : List Dependency
default_dependencies =
    default_dependency "tx-004" "2026-04-01T10:41:00Z"
    ∷ default_dependency "tx-006" "2026-04-01T12:18:00Z"
    ∷ []

abbrev pub candidate : String → String → String → Metrics → Candidate
candidate id label family metrics = record {
  id = id;
  label = label;
  family = family;
  target = "relationship/event/subgraph/community review hypotheses";
  population = "authorized visible synthetic graph projection";
  horizon = "next review window";
  metrics = metrics;
  dependencies = default_dependencies;
}

abbrev pub default_candidates : List Candidate
default_candidates =
    candidate "recency-frequency" "Recency/frequency baseline" "deterministic baseline" (record {
      precision_at_budget = 670;
      calibration_error = 180;
      hard_negative_false_positive_rate = 210;
      random_negative_precision = 730;
      latency_ms = 4;
      explanation_coverage = 1000;
      robustness = 720;
      overreliance_gate = "needs-human-study";
      feature_families = "recency" ∷ "frequency" ∷ "degree" ∷ [];
      red_team_scores = ("legitimate-high-degree", 620) ∷ ("shared-infrastructure", 580) ∷ [];
    })
    ∷ candidate "edgebank-style" "EdgeBank-style repeat baseline" "deterministic baseline" (record {
      precision_at_budget = 580;
      calibration_error = 240;
      hard_negative_false_positive_rate = 280;
      random_negative_precision = 760;
      latency_ms = 6;
      explanation_coverage = 1000;
      robustness = 690;
      overreliance_gate = "needs-human-study";
      feature_families = "historical edge repeat" ∷ "recency" ∷ [];
      red_team_scores = ("duplicated-entities", 640) ∷ ("delayed-reports", 670) ∷ [];
    })
    ∷ candidate "temporal-motifs" "Temporal motif baseline" "deterministic baseline" (record {
      precision_at_budget = 690;
      calibration_error = 160;
      hard_negative_false_positive_rate = 190;
      random_negative_precision = 720;
      latency_ms = 11;
      explanation_coverage = 1000;
      robustness = 740;
      overreliance_gate = "needs-human-study";
      feature_families = "fan-in/fan-out motif" ∷ "burst timing" ∷ "bridge motif" ∷ [];
      red_team_scores = ("smurfing", 580) ∷ ("circular-flows", 550) ∷ [];
    })
    ∷ candidate "calibrated-logistic" "Calibrated logistic candidate" "classical ML" (record {
      precision_at_budget = 700;
      calibration_error = 120;
      hard_negative_false_positive_rate = 180;
      random_negative_precision = 800;
      latency_ms = 9;
      explanation_coverage = 930;
      robustness = 680;
      overreliance_gate = "needs-human-study";
      feature_families = "calibrated linear weights" ∷ "motifs" ∷ "missingness indicators" ∷ [];
      red_team_scores = ("missing-data", 570) ∷ ("legitimate-high-degree", 520) ∷ [];
    })
    ∷ candidate "calibrated-gbm" "Calibrated GBM candidate" "classical ML" (record {
      precision_at_budget = 710;
      calibration_error = 110;
      hard_negative_false_positive_rate = 180;
      random_negative_precision = 840;
      latency_ms = 14;
      explanation_coverage = 880;
      robustness = 660;
      overreliance_gate = "needs-human-study";
      feature_families = "tree interactions" ∷ "motifs" ∷ "transaction timing" ∷ [];
      red_team_scores = ("circular-flows", 540) ∷ ("shared-infrastructure", 510) ∷ [];
    })
    ∷ candidate "tgat-candidate" "TGAT temporal attention candidate" "temporal GNN" (record {
      precision_at_budget = 750;
      calibration_error = 270;
      hard_negative_false_positive_rate = 310;
      random_negative_precision = 900;
      latency_ms = 118;
      explanation_coverage = 570;
      robustness = 520;
      overreliance_gate = "failed";
      feature_families = "temporal attention" ∷ "node memory" ∷ "time encodings" ∷ [];
      red_team_scores = ("delayed-reports", 790) ∷ ("shared-infrastructure", 720) ∷ [];
    })
    ∷ candidate "tgn-candidate" "TGN event-stream candidate" "temporal GNN" (record {
      precision_at_budget = 760;
      calibration_error = 290;
      hard_negative_false_positive_rate = 340;
      random_negative_precision = 910;
      latency_ms = 120;
      explanation_coverage = 540;
      robustness = 510;
      overreliance_gate = "failed";
      feature_families = "memory module" ∷ "message passing" ∷ "time encodings" ∷ [];
      red_team_scores = ("legitimate-high-degree", 810) ∷ ("delayed-reports", 760) ∷ [];
    })
    ∷ candidate "graphmixer-dygformer" "GraphMixer / DyGFormer candidate" "temporal GNN" (record {
      precision_at_budget = 740;
      calibration_error = 200;
      hard_negative_false_positive_rate = 260;
      random_negative_precision = 880;
      latency_ms = 142;
      explanation_coverage = 630;
      robustness = 560;
      overreliance_gate = "failed";
      feature_families = "sequence mixer" ∷ "neighbor sequences" ∷ "time encodings" ∷ [];
      red_team_scores = ("smurfing", 700) ∷ ("missing-data", 670) ∷ [];
    })
    ∷ candidate "cawn" "CAWN causal anonymous walk candidate" "temporal GNN" (record {
      precision_at_budget = 720;
      calibration_error = 190;
      hard_negative_false_positive_rate = 240;
      random_negative_precision = 860;
      latency_ms = 94;
      explanation_coverage = 620;
      robustness = 580;
      overreliance_gate = "failed";
      feature_families = "anonymous walks" ∷ "time-aware neighborhoods" ∷ [];
      red_team_scores = ("duplicated-entities", 690) ∷ ("circular-flows", 660) ∷ [];
    })
    ∷ candidate "jodie" "JODIE dynamic embedding candidate" "temporal GNN" (record {
      precision_at_budget = 700;
      calibration_error = 220;
      hard_negative_false_positive_rate = 270;
      random_negative_precision = 850;
      latency_ms = 78;
      explanation_coverage = 500;
      robustness = 550;
      overreliance_gate = "failed";
      feature_families = "projected embeddings" ∷ "interaction sequence" ∷ [];
      red_team_scores = ("delayed-reports", 710) ∷ ("missing-data", 690) ∷ [];
    })
    ∷ candidate "evolvegcn" "EvolveGCN snapshot candidate" "temporal GNN" (record {
      precision_at_budget = 680;
      calibration_error = 210;
      hard_negative_false_positive_rate = 250;
      random_negative_precision = 810;
      latency_ms = 136;
      explanation_coverage = 590;
      robustness = 570;
      overreliance_gate = "failed";
      feature_families = "snapshot GCN" ∷ "evolving weights" ∷ [];
      red_team_scores = ("missing-data", 700) ∷ ("circular-flows", 630) ∷ [];
    })
    ∷ candidate "transaction-gnn" "Transaction-specific GNN candidate" "financial graph ML"
        (record {
          precision_at_budget = 780;
          calibration_error = 150;
          hard_negative_false_positive_rate = 220;
          random_negative_precision = 930;
          latency_ms = 160;
          explanation_coverage = 700;
          robustness = 600;
          overreliance_gate = "failed";
          feature_families = "heterogeneous transaction graph" ∷ "amount/time encodings" ∷ [];
          red_team_scores = ("legitimate-high-degree", 680) ∷ ("shared-infrastructure", 710) ∷ [];
        })
    ∷ candidate "dynamic-community" "Dynamic community hypothesis candidate"
        "dynamic community method"
        (record {
          precision_at_budget = 690;
          calibration_error = 170;
          hard_negative_false_positive_rate = 190;
          random_negative_precision = 770;
          latency_ms = 25;
          explanation_coverage = 900;
          robustness = 670;
          overreliance_gate = "needs-human-study";
          feature_families =
              "split/merge lineage" ∷ "bridge concentration" ∷ "community birth" ∷ [];
          red_team_scores = ("duplicated-entities", 520) ∷ ("missing-data", 560) ∷ [];
        })
    ∷ []
