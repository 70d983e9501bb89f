-- ===== src/Lib.antt =====
-- Verification of the network analytics workbench, a browser program (JavaScript modules under packages/ and
-- apps/web/) in which an analyst looks at a graph of relationships, charts and annotates it, and exports
-- briefings, and of the gates that predictive models and the assistant have to pass.
--
-- The parts, and the files that model them:
--   * Graph.antt: what the others read of a case, its nodes, relationships and settings, and the graph source, an
--     object with a list of nodes and the functions nodeById and visibleRelationships.
--   * Workspace.antt: packages/graph-renderer/chart-workspace.mjs. Workspace/State has the workspace as a record;
--     its content, with the snapshot, is what the undo history stores (withoutHistory). Workspace/History has
--     commitWorkspaceChange, undoWorkspaceChange and redoWorkspaceChange; Workspace/Search searchGraph,
--     saveSearch, pinSearchResult and expandNeighbors; Workspace/Path shortestPath and setPath; Workspace/Notes
--     the annotations, comments, case notes, tasks and the review status; Workspace/Manual the manual items,
--     redactions, layouts and snapshots; Workspace/Export the explanations and the two exports. Each function has
--     the source's name, in snake case, and takes and returns the workspace as the source does. Workspace/Reach
--     has the step relation of the controls of apps/web/app.mjs, and Workspace/AiNote its control saveAiNote, which
--     commits the assistant's draft as a note and adds an audit entry in place. Workspace/Valid, Keeps, Redaction,
--     Status, Removal, Tasks, Snapshots, Ids and Found hold the invariant and the theorems.
--   * Harbor.antt: packages/guided-workflow/harbor-lantern.mjs, the state of the guided analysis: updateSetting,
--     resetAnalysis, visibleRelationships, deriveAnalysis, reportModel and runPreflight, with the module's
--     variables and configureWorkbenchBootstrap.
--   * Timeline.antt: packages/graph-renderer/graph-model.mjs: buildPeriodModel, graphSummary, recommendSplit,
--     buildChronologicalSplitModels and semanticRows.
--   * Gates.antt: packages/predictive/model-gates.mjs: detectTemporalLeakage, buildTemporalFolds,
--     evaluateRedTeamGates, validateBenchmarkClaimGate; Gates/Card has buildCandidateModelCard, Gates/Panel
--     evaluatePredictiveModelCandidates and enableCandidate, Gates/Double the floating-point sum of its baseline gate,
--     Gates/Defaults the candidates of the source.
--     Gates/Production.antt: packages/predictive/production-readiness.mjs: validateModelProviderConfig and
--     createNeuralTrainingRunPlan; Gates/Calibration computeCalibrationCurve, and Gates/Promotion
--     validateTrainedModelArtifact and evaluateProductionPromotion. Gates/Eligible, Safe, Replay, Calibrated and
--     Promoted hold the theorems.
--   * Assistant.antt: packages/ai-assistant/production-readiness.mjs: the scan for prompt injections, source
--     isolation, retrieval authorization, privacy review, provider gate, overreliance study and audit records.
--   * Phrases.antt: packages/graph-renderer/bloom-exploration.mjs: validateScenePreset, applyScenePreset,
--     parseGraphPhrase and executeGraphPhrase. Phrases/Pattern has the regular expressions, as lists of pieces
--     matched with backtracking; Phrases/Split and Phrases/Between the theorems on path phrases.
--   * Layout.antt: packages/graph-renderer/layout-model.mjs: pushLayoutCheckpoint, setNodeIcon, setNodeImage,
--     resetNodeVisual and validateNodeImage.
--   * Client.antt: packages/api-client/workbench-client.mjs: validateWorkbenchBootstrap and
--     loadWorkbenchBootstrap, and in Client/Login loginDemo, logoutDemo and demoApiBaseUrl with the storage they
--     share. Client/Session and Client/Signed have the theorems on a session.
--   * Import.antt: packages/guided-workflow/transaction-import.mjs. Import/Csv has splitCsvLine; Import/Rows
--     parseCsv, flattenRecord, parseJson and parseTransactionInput; Import/Mapping inferColumnMapping and
--     normalizeColumnMapping; Import/Values the readers of single cells; Import/Preview previewTransactionImport;
--     Import/Workflow the nodes and relationships of createImportedFraudWorkflow with importedRelationships;
--     Import/Detection its detectFraudRings with hardNegativeReasons and labeledAccounts; Import/Benchmark
--     evaluateImportedFraudBenchmark with the analysis, report and preflight of an import. Import/Csv/Reads,
--     Sound, Decided, Scores, Closed, Labels and Preflight hold the theorems.
--   * Fraud.antt: packages/guided-workflow/financial-fraud.mjs: Fraud/Case has the synthetic case, Fraud/Detect
--     detectFraudRings, deriveAnalysis, reportModel and runPreflight, and Fraud/Flow what the import shares with
--     it, which the source writes twice.
--   * Community.antt: packages/predictive/community-baselines.mjs: connectedComponents, and in Community/Labels
--     labelPropagationCommunities and evaluateCommunitySplit. Community/Components and Labels/Spread hold the
--     theorems.
--   * Copilot.antt: packages/ai-assistant/analyst-copilot.mjs. Copilot/Policy has classifyPrompt and aiAudit;
--     Copilot/Evidence retrieveGraphEvidence; Copilot/Answer answerGraphQuestion and draftNeutralReport;
--     Copilot/Review redTeamReview and prepareAssistantNote; Copilot/Guides findEvidenceGaps, coachNextStep and
--     suggestNextReviewAction; Copilot/Query suggestSafeQuery, with the patterns of Phrases/Pattern;
--     Copilot/Resolution suggestEntityResolutions. It reads the rows of Timeline/Rows and the exports of Workspace/Export.
--   * Prelude.antt: lists, sets of ids, texts, whole numbers and lists of failures, shared by all.
--
-- How the source is read. A missing property is none; a default parameter is an Option. A Set is a list without
-- repetitions in the order of insertion. Numbers that the program only compares are natural numbers:
-- milliseconds, and metrics in thousandths; the one sum of metrics, that of the baseline gate, is rounded as JavaScript
-- rounds it; coordinates are whole numbers. Amounts are whole numbers of
-- thousandths. toLowerCase and toUpperCase are exact for Basic Latin and Latin-1. A regular expression is written
-- out as its alternatives, or as a list of pieces. Date.parse, Number, localeCompare, JSON.parse, JSON.stringify,
-- fetch and new URL are parameters; so is the arithmetic of the calibration curve, a record of operations of which
-- only the theorem on the counts of the bins assumes anything, that 1 is above 0 and that what is at most 0 is at
-- most 1.
--
-- Fuel. The loop of shortestPath takes one round for each end of a relationship and one for the start, which
-- is enough for every graph. The loop of buildTemporalFolds takes one round for each millisecond up to
-- the last event, which is enough for every step above zero. The outer loop of connectedComponents takes one
-- round for each node, the inner one a round for each node that remains and one more, since each
-- round takes a node that was not taken before. The rounds of label propagation are the source's own limit.
-- The size of the last digit of a double is found in 64 doublings of 2 ^ -62, which is enough for numbers
-- below 2 ^ 55. All other loops are recursions on lists and texts.
--
-- Not modelled: the document code and the network code of apps/web, the SVG renderer, the floating-point geometry
-- of layouts, the trainer and the anomaly scorer that reads its features, the tables of data, and
-- the services in Python and SQL.
pub mod Prelude
pub mod Graph
pub mod Workspace
pub mod Harbor
pub mod Timeline
pub mod Gates
pub mod Assistant
pub mod Phrases
pub mod Layout
pub mod Client
pub mod Import
pub mod Fraud
pub mod Community
pub mod Copilot
