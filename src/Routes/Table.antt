-- ===== src/Routes/Table.antt =====
-- The routes that Server.Routes registers, in the source's order (backend/internal/api/server.go).
use encode_system.Prelude.{String, List, [], ◌∷◌, ◌++◌}

-- a part of a pattern: a text, or a wildcard such as {id}
pub data Segment : Type 0 where
  lit : String → Segment
  wild : Segment

-- the middleware around a handler; `open_to_all` is none
pub data Access : Type 0 where
  open_to_all node_token any_user admin_only : Access

pub record Route : Type 0 where
  pub method : String
  pub path : List Segment
  pub access : Access
  pub handler : String

abbrev route : String → List Segment → Access → String → Route
route method path access handler = record {
  method = method;
  path = path;
  access = access;
  handler = handler;
}

abbrev agent_and_job_routes : List Route
agent_and_job_routes =
    route "GET" (lit "api" ∷ lit "health" ∷ []) open_to_all "handleHealth"
    ∷ route "POST" (lit "api" ∷ lit "agent" ∷ lit "heartbeat" ∷ []) node_token "handleHeartbeat"
    ∷ route "POST" (lit "api" ∷ lit "agent" ∷ lit "job" ∷ wild ∷ lit "complete" ∷ []) node_token
        "handleJobComplete"
    ∷ route "GET" (lit "api" ∷ lit "agent" ∷ lit "manifest" ∷ []) node_token "handleManifest"
    ∷ route "GET" (lit "api" ∷ lit "agent" ∷ lit "download" ∷ lit "agent" ∷ []) node_token
        "handleDownloadAgent"
    ∷ route "GET" (lit "api" ∷ lit "agent" ∷ lit "download" ∷ lit "lib" ∷ []) node_token
        "handleDownloadLib"
    ∷ route "POST" (lit "api" ∷ lit "auth" ∷ lit "login" ∷ []) open_to_all "handleLogin"
    ∷ route "POST" (lit "api" ∷ lit "auth" ∷ lit "logout" ∷ []) any_user "handleLogout"
    ∷ route "GET" (lit "api" ∷ lit "auth" ∷ lit "me" ∷ []) any_user "handleMe"
    ∷ route "POST" (lit "api" ∷ lit "auth" ∷ lit "password" ∷ []) admin_only "handleChangePassword"
    ∷ route "GET" (lit "api" ∷ lit "nodes" ∷ []) any_user "handleListNodes"
    ∷ route "POST" (lit "api" ∷ lit "nodes" ∷ []) admin_only "handleCreateNode"
    ∷ route "PATCH" (lit "api" ∷ lit "nodes" ∷ wild ∷ []) admin_only "handlePatchNode"
    ∷ route "DELETE" (lit "api" ∷ lit "nodes" ∷ wild ∷ []) admin_only "handleDeleteNode"
    ∷ route "POST" (lit "api" ∷ lit "nodes" ∷ wild ∷ lit "reboot" ∷ []) admin_only
        "handleRebootNode"
    ∷ route "GET" (lit "api" ∷ lit "nodes" ∷ wild ∷ lit "metrics" ∷ []) any_user "handleNodeMetrics"
    ∷ route "GET" (lit "api" ∷ lit "jobs" ∷ []) any_user "handleListJobs"
    ∷ route "POST" (lit "api" ∷ lit "jobs" ∷ []) admin_only "handleCreateJob"
    ∷ route "POST" (lit "api" ∷ lit "jobs" ∷ lit "bulk" ∷ []) admin_only "handleBulkJobs"
    ∷ route "POST" (lit "api" ∷ lit "jobs" ∷ lit "prune" ∷ []) admin_only "handlePruneJobs"
    ∷ route "GET" (lit "api" ∷ lit "jobs" ∷ wild ∷ lit "eta" ∷ []) any_user "handleJobETA"
    ∷ route "POST" (lit "api" ∷ lit "scan" ∷ []) admin_only "handleScanNow"
    ∷ route "GET" (lit "metrics" ∷ []) open_to_all "handlePrometheus"
    ∷ route "GET" (lit "api" ∷ lit "shares" ∷ []) any_user "handleListShares"
    ∷ route "POST" (lit "api" ∷ lit "shares" ∷ []) admin_only "handleCreateShare"
    ∷ route "GET" (lit "api" ∷ lit "shares" ∷ wild ∷ []) any_user "handleGetShare"
    ∷ route "PUT" (lit "api" ∷ lit "shares" ∷ wild ∷ []) admin_only "handleUpdateShare"
    ∷ route "DELETE" (lit "api" ∷ lit "shares" ∷ wild ∷ []) admin_only "handleDeleteShare"
    ∷ route "GET" (lit "api" ∷ lit "audit" ∷ []) admin_only "handleListAudit"
    ∷ route "GET" (lit "api" ∷ lit "tokens" ∷ []) admin_only "handleListAPITokens"
    ∷ route "POST" (lit "api" ∷ lit "tokens" ∷ []) admin_only "handleCreateAPIToken"
    ∷ route "DELETE" (lit "api" ∷ lit "tokens" ∷ wild ∷ []) admin_only "handleDeleteAPIToken"
    ∷ []

abbrev job_and_flow_routes : List Route
job_and_flow_routes =
    route "GET" (lit "api" ∷ lit "backup" ∷ []) admin_only "handleBackupStatus"
    ∷ route "POST" (lit "api" ∷ lit "backup" ∷ []) admin_only "handleBackupNow"
    ∷ route "PUT" (lit "api" ∷ lit "backup" ∷ lit "settings" ∷ []) admin_only
        "handleUpdateBackupSettings"
    ∷ route "GET" (lit "api" ∷ lit "backup" ∷ wild ∷ []) admin_only "handleBackupDownload"
    ∷ route "DELETE" (lit "api" ∷ lit "backup" ∷ wild ∷ []) admin_only "handleBackupDelete"
    ∷ route "POST" (lit "api" ∷ lit "backup" ∷ wild ∷ lit "restore" ∷ []) admin_only
        "handleBackupRestore"
    ∷ route "GET" (lit "api" ∷ lit "jobs" ∷ wild ∷ []) any_user "handleGetJob"
    ∷ route "GET" (lit "api" ∷ lit "jobs" ∷ wild ∷ lit "log" ∷ []) any_user "handleGetJobLog"
    ∷ route "GET" (lit "api" ∷ lit "jobs" ∷ wild ∷ lit "log" ∷ lit "stream" ∷ []) any_user
        "handleJobLogStream"
    ∷ route "POST" (lit "api" ∷ lit "jobs" ∷ wild ∷ lit "retry" ∷ []) admin_only "handleRetryJob"
    ∷ route "POST" (lit "api" ∷ lit "jobs" ∷ wild ∷ lit "cancel" ∷ []) admin_only "handleCancelJob"
    ∷ route "PATCH" (lit "api" ∷ lit "jobs" ∷ wild ∷ []) admin_only "handlePatchJob"
    ∷ route "DELETE" (lit "api" ∷ lit "jobs" ∷ wild ∷ []) admin_only "handleDeleteJob"
    ∷ route "GET" (lit "api" ∷ lit "flows" ∷ []) any_user "handleListFlows"
    ∷ route "POST" (lit "api" ∷ lit "flows" ∷ []) admin_only "handleCreateFlow"
    ∷ route "PUT" (lit "api" ∷ lit "flows" ∷ wild ∷ []) admin_only "handleUpdateFlow"
    ∷ route "DELETE" (lit "api" ∷ lit "flows" ∷ wild ∷ []) admin_only "handleDeleteFlow"
    ∷ route "POST" (lit "api" ∷ lit "flows" ∷ wild ∷ lit "default" ∷ []) admin_only
        "handleSetDefaultFlow"
    ∷ route "POST" (lit "api" ∷ lit "flows" ∷ wild ∷ lit "duplicate" ∷ []) admin_only
        "handleDuplicateFlow"
    ∷ route "GET" (lit "api" ∷ lit "flows" ∷ wild ∷ lit "export" ∷ []) any_user "handleExportFlow"
    ∷ route "POST" (lit "api" ∷ lit "flows" ∷ lit "import" ∷ []) admin_only "handleImportFlow"
    ∷ route "GET" (lit "api" ∷ lit "series" ∷ []) any_user "handleListSeries"
    ∷ route "POST" (lit "api" ∷ lit "series" ∷ []) admin_only "handleCreateSeries"
    ∷ route "PATCH" (lit "api" ∷ lit "series" ∷ wild ∷ []) admin_only "handlePatchSeries"
    ∷ route "GET" (lit "api" ∷ lit "step-templates" ∷ []) any_user "handleListStepTemplates"
    ∷ route "POST" (lit "api" ∷ lit "step-templates" ∷ []) admin_only "handleCreateStepTemplate"
    ∷ route "PUT" (lit "api" ∷ lit "step-templates" ∷ wild ∷ []) admin_only
        "handleUpdateStepTemplate"
    ∷ route "DELETE" (lit "api" ∷ lit "step-templates" ∷ wild ∷ []) admin_only
        "handleDeleteStepTemplate"
    ∷ route "POST" (lit "api" ∷ lit "step-templates" ∷ wild ∷ lit "reset" ∷ []) admin_only
        "handleResetStepTemplate"
    ∷ route "GET" (lit "api" ∷ lit "pairing" ∷ []) admin_only "handleListPairingCodes"
    ∷ []

abbrev management_routes : List Route
management_routes =
    route "POST" (lit "api" ∷ lit "pairing" ∷ []) admin_only "handleCreatePairingCode"
    ∷ route "POST" (lit "api" ∷ lit "agent" ∷ lit "pair" ∷ []) open_to_all "handleAgentPair"
    ∷ route "POST" (lit "api" ∷ lit "provision" ∷ []) admin_only "handleStartProvision"
    ∷ route "GET" (lit "api" ∷ lit "provision" ∷ lit "runs" ∷ []) admin_only
        "handleListProvisionRuns"
    ∷ route "GET" (lit "api" ∷ lit "provision" ∷ lit "runs" ∷ wild ∷ []) admin_only
        "handleGetProvisionRunLog"
    ∷ route "GET" (lit "api" ∷ lit "settings" ∷ []) any_user "handleGetSettings"
    ∷ route "PUT" (lit "api" ∷ lit "settings" ∷ []) admin_only "handleUpdateSettings"
    ∷ route "GET" (lit "api" ∷ lit "stats" ∷ []) any_user "handleStats"
    ∷ route "GET" (lit "api" ∷ lit "updates" ∷ lit "check" ∷ []) any_user "handleUpdateCheck"
    ∷ route "GET" (lit "api" ∷ lit "users" ∷ []) admin_only "handleListUsers"
    ∷ route "POST" (lit "api" ∷ lit "users" ∷ []) admin_only "handleCreateUser"
    ∷ route "DELETE" (lit "api" ∷ lit "users" ∷ wild ∷ []) admin_only "handleDeleteUser"
    ∷ route "PUT" (lit "api" ∷ lit "users" ∷ wild ∷ lit "password" ∷ []) admin_only
        "handleResetUserPassword"
    ∷ route "GET" (lit "api" ∷ lit "agent" ∷ lit "download" ∷ lit "bin" ∷ []) node_token
        "handleDownloadBin"
    ∷ route "GET" (lit "api" ∷ lit "updates" ∷ lit "manifest" ∷ []) admin_only "handleManifestAdmin"
    ∷ route "POST" (lit "api" ∷ lit "updates" ∷ lit "agent" ∷ []) admin_only "handlePublishAgent"
    ∷ route "POST" (lit "api" ∷ lit "updates" ∷ lit "agent" ∷ lit "rollback" ∷ []) admin_only
        "handleRollbackAgent"
    ∷ route "POST" (lit "api" ∷ lit "updates" ∷ lit "lib" ∷ []) admin_only "handlePublishLib"
    ∷ route "POST" (lit "api" ∷ lit "updates" ∷ lit "bin" ∷ []) admin_only "handlePublishBin"
    ∷ route "POST" (lit "api" ∷ lit "updates" ∷ lit "bin" ∷ lit "url" ∷ []) admin_only
        "handlePublishBinFromURL"
    ∷ []

abbrev pub routes : List Route
routes = agent_and_job_routes ++ job_and_flow_routes ++ management_routes
