-- ===== src/Logging/Lines.antt =====
-- The texts that the program writes to its log: src/http/types.cc, src/http/server.cc, src/main.cc and
-- src/inference/generator.cc, the `operator<<` of requests, configurations and messages.
use gabby.Base.{◌+◌, List, [], ◌∷◌, ◌++◌, Bytes, codes, decimal, ◌≡◌, refl}
use gabby.Json.Source.{Size, plus, minus, eof}
use gabby.Http.Types.{StatusCode, Method, get, Request, status_text, method_text}
use gabby.Config.{ServerConfig, Config, default_config}
use gabby.Service.{Message, Question}
use gabby.Logging.{level_text}

-- an `int` on a stream
abbrev int_text : Size → Bytes
int_text (plus n) = decimal n
int_text (minus n) = codes "-" ++ decimal (n + 1)

-- http/types.cc, `operator<<(std::ostream&, StatusCode)`
unfoldable pub status_log : StatusCode → Bytes
unfolding status_text
status_log status = status_text status

-- http/types.cc, `operator<<(std::ostream&, Method)`
unfoldable pub method_log : Method → Bytes
unfolding method_text
method_log method = method_text method

unfoldable pub headers_log : List (Bytes × Bytes) → Bytes
headers_log [] = []
headers_log ((k, v) ∷ hs) = k ++ codes ": " ++ v ++ codes ", " ++ headers_log hs

-- http/types.cc, `operator<<(std::ostream&, const Request&)`
unfoldable pub request_log : Request → Bytes
unfolding headers_log method_text
request_log req =
    codes "{ "
    ++ (codes "addr: " ++ req.addr)
    ++ (codes ", method: " ++ method_text req.method)
    ++ (codes ", path: " ++ req.path)
    ++ codes ", headers: { "
    ++ headers_log req.headers
    ++ codes " }"
    ++ codes " }"

-- http/server.cc, `operator<<(std::ostream&, const ServerConfig&)`
unfoldable pub server_config_log : ServerConfig → Bytes
unfolding decimal
server_config_log config =
    codes "{ port: "
    ++ int_text config.port
    ++ codes ", read_timeout_millis: "
    ++ int_text config.read_timeout_millis
    ++ codes ", write_timeout_millis: "
    ++ int_text config.write_timeout_millis
    ++ codes ", worker_threads: "
    ++ decimal config.worker_threads
    ++ codes " }"

-- main.cc, `operator<<(std::ostream&, const Config&)`
unfoldable pub config_log : Config → Bytes
unfolding server_config_log level_text
config_log config =
    codes "{ server_config: "
    ++ server_config_log config.server_config
    ++ codes ", log_level: "
    ++ level_text config.log_level
    ++ codes ", model_dir: "
    ++ config.model_dir
    ++ codes " }"

-- inference/generator.cc, `operator<<(std::ostream&, const Message&)`
unfoldable pub message_log : Message → Bytes
message_log msg =
    codes "{ \"role\": " ++ msg.role ++ codes ", \"content\": " ++ msg.content ++ codes " }"

-- inference/generator.cc, `operator<<(std::ostream&, const Request&)`
unfoldable pub question_log : Question → Bytes
unfolding message_log
question_log question =
    codes "{ \"system\": "
    ++ message_log question.system_message
    ++ codes ", \"user\": "
    ++ message_log question.user_message
    ++ codes " }"

default_log :
    config_log (default_config 3)
    ≡ codes "{ server_config: { port: 8080, read_timeout_millis: 5000, "
      ++ codes "write_timeout_millis: 10000, worker_threads: 3 }, log_level: OFF, model_dir:  }"
unfolding config_log server_config_log default_config decimal level_text
default_log = refl

request_text :
    request_log (record {
      addr = codes "1.2.3.4";
      method = get;
      path = codes "/";
      headers = (codes "A", codes "b") ∷ [];
      stream = record { bytes = []; ending = eof };
    })
    ≡ codes "{ addr: 1.2.3.4, method: GET, path: /, headers: { A: b,  } }"
unfolding request_log headers_log method_text
request_text = refl
