-- ===== src/Ui/Status.antt =====
-- The handlers of handler.go for the state of the system: checkService, systemStatus, rabbitmqQueues,
-- with getEnv and parseID. The environment, net/http, encoding/json and strconv are parameters.
use quantum_entropy_service.Common.{
  ℕ, leb, String, str_eq, str_append, List, [], ◌∷◌, map, Option, none, some, if◌then◌else◌, Action,
  Result, ok, err,
}
use quantum_entropy_service.Ui.{
  Badge, badge_online, badge_offline, QueueInfo, QueueRow, Page, page, warning, system_status,
  no_queues, queues_table,
}

-- An answer to a request; of a body that cannot be read in full, what could be read.
pub record Response : Type 0 where
  pub status_code : ℕ
  pub body : String

-- `getenv` gives "" for a variable that is not set; `get` takes the credentials, if any.
pub record Host (N : Type 0) : Type 0 where
  pub getenv : String → String
  pub get : (url : String) → Option (String × String) → Action N Response
  pub queues_of : String → Result (List QueueInfo)
  pub parse_uint : String → Result ℕ

module _ {N : Type 0} (host : Host N) where
  unfoldable pub get_env : (key fallback : String) → String
  get_env key fallback = let v = host.getenv key in if str_eq v "" then fallback else v

  abbrev badge_of : Result Response → Badge
  badge_of (err e) = badge_offline
  badge_of (ok resp) = if leb 400 resp.status_code then badge_offline else badge_online

  abbrev credentials : (user pass : String) → Option (String × String)
  credentials user pass = if str_eq user "" then none else some (user, pass)

  unfoldable pub check_service : (url user pass : String) → N → Badge × N
  check_service url user pass n =
      let (r, n') = host.get url (credentials user pass) n in (badge_of r, n')

  -- GET /ui/system-status
  unfoldable pub system_status_page : N → Page × N
  unfolding get_env check_service
  system_status_page n =
      let quantum_url = str_append (get_env "API_BASE_URL" "http://quantum-api:8081") "/health" in
      let rabbitmq_url =
        str_append "http://"
          (str_append (get_env "RABBITMQ_MGMT_HOST" "rabbitmq:15672") "/api/overview") in
      let (quantum, n₁) = check_service quantum_url "" "" n in
      let (rabbitmq, n₂) = check_service rabbitmq_url "guest" "guest" n₁ in
      (page 200 (system_status quantum rabbitmq), n₂)

  abbrev pub queue_row : QueueInfo → QueueRow
  queue_row q = record {
    name = q.name;
    state_class = if str_eq q.state "running" then badge_online else badge_offline;
    state = q.state;
    ready = q.ready;
    unacked = q.unacked;
    messages = q.messages;
    consumers = q.consumers;
  }

  abbrev listed : Result (List QueueInfo) → Page
  listed (err e) = page 200 no_queues
  listed (ok []) = page 200 no_queues
  listed (ok (q ∷ queues)) = page 200 (queues_table (map queue_row (q ∷ queues)))

  abbrev queues_page : Result Response → Page
  queues_page (err e) = page 200 (warning "Cannot reach RabbitMQ Management API.")
  queues_page (ok resp) = listed (host.queues_of resp.body)

  -- GET /ui/rabbitmq-queues
  unfoldable pub rabbitmq_queues : N → Page × N
  unfolding get_env
  rabbitmq_queues n =
      let url =
        str_append "http://"
          (str_append (get_env "RABBITMQ_MGMT_HOST" "rabbitmq:15672") "/api/queues") in
      let (r, n') = host.get url (some ("guest", "guest")) n in (queues_page r, n')

  unfoldable pub parse_id : String → Result ℕ
  parse_id param = host.parse_uint param
