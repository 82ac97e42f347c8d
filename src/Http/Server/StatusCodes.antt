-- ===== src/Http/Server/StatusCodes.antt =====
-- The `STATUS_CODES` of src/http/_status_codes.h, and `str_status_code` of src/http/server.cc.
use libnodecc.Prelude.{ℕ, Bytes, codes, List, [], ◌∷◌, Option, none, some}
use libnodecc.Prelude.{◌==◌, if◌then◌else◌}

-- A status with the length and the base of its text.
abbrev pub Entry : Type 0
Entry = ℕ × ℕ × Option Bytes

unfoldable pub status_codes : List Entry
status_codes =
    (100, 12, some (codes "100 Continue"))
    ∷ (101, 23, some (codes "101 Switching Protocols"))
    ∷ (102, 14, some (codes "102 Processing"))
    ∷ (200, 6, some (codes "200 OK"))
    ∷ (201, 11, some (codes "201 Created"))
    ∷ (202, 12, some (codes "202 Accepted"))
    ∷ (203, 33, some (codes "203 Non-Authoritative Information"))
    ∷ (204, 14, some (codes "204 No Content"))
    ∷ (205, 17, some (codes "205 Reset Content"))
    ∷ (206, 19, some (codes "206 Partial Content"))
    ∷ (207, 16, some (codes "207 Multi-Status"))
    ∷ (300, 20, some (codes "300 Multiple Choices"))
    ∷ (301, 21, some (codes "301 Moved Permanently"))
    ∷ (302, 21, some (codes "302 Moved Temporarily"))
    ∷ (303, 13, some (codes "303 See Other"))
    ∷ (304, 16, some (codes "304 Not Modified"))
    ∷ (305, 13, some (codes "305 Use Proxy"))
    ∷ (306, 16, some (codes "306 Switch Proxy"))
    ∷ (307, 22, some (codes "307 Temporary Redirect"))
    ∷ (400, 15, some (codes "400 Bad Request"))
    ∷ (401, 16, some (codes "401 Unauthorized"))
    ∷ (402, 20, some (codes "402 Payment Required"))
    ∷ (403, 13, some (codes "403 Forbidden"))
    ∷ (404, 13, some (codes "404 Not Found"))
    ∷ (405, 22, some (codes "405 Method Not Allowed"))
    ∷ (406, 18, some (codes "406 Not Acceptable"))
    ∷ (407, 33, some (codes "407 Proxy Authentication Required"))
    ∷ (408, 19, some (codes "408 Request Timeout"))
    ∷ (409, 12, some (codes "409 Conflict"))
    ∷ (410, 8, some (codes "410 Gone"))
    ∷ (411, 19, some (codes "411 Length Required"))
    ∷ (412, 23, some (codes "412 Precondition Failed"))
    ∷ (413, 28, some (codes "413 Request Entity Too Large"))
    ∷ (414, 25, some (codes "414 Request-URI Too Large"))
    ∷ (415, 26, some (codes "415 Unsupported Media Type"))
    ∷ (416, 35, some (codes "416 Requested Range Not Satisfiable"))
    ∷ (417, 22, some (codes "417 Expectation Failed"))
    ∷ (418, 16, some (codes "418 I'm a teapot"))
    ∷ (419, 0, none)
    ∷ (420, 0, none)
    ∷ (421, 0, none)
    ∷ (422, 24, some (codes "422 Unprocessable Entity"))
    ∷ (423, 10, some (codes "423 Locked"))
    ∷ (424, 21, some (codes "424 Failed Dependency"))
    ∷ (425, 24, some (codes "425 Unordered Collection"))
    ∷ (426, 20, some (codes "426 Upgrade Required"))
    ∷ (427, 0, none)
    ∷ (428, 25, some (codes "428 Precondition Required"))
    ∷ (429, 21, some (codes "429 Too Many Requests"))
    ∷ (430, 0, none)
    ∷ (431, 35, some (codes "431 Request Header Fields Too Large"))
    ∷ (500, 25, some (codes "500 Internal Server Error"))
    ∷ (501, 19, some (codes "501 Not Implemented"))
    ∷ (502, 15, some (codes "502 Bad Gateway"))
    ∷ (503, 23, some (codes "503 Service Unavailable"))
    ∷ (504, 20, some (codes "504 Gateway Time-out"))
    ∷ (505, 30, some (codes "505 HTTP Version Not Supported"))
    ∷ (506, 27, some (codes "506 Variant Also Negotiates"))
    ∷ (507, 24, some (codes "507 Insufficient Storage"))
    ∷ (508, 17, some (codes "508 Loop Detected"))
    ∷ (509, 28, some (codes "509 Bandwidth Limit Exceeded"))
    ∷ (510, 16, some (codes "510 Not Extended"))
    ∷ (511, 35, some (codes "511 Network Authentication Required"))
    ∷ []

unfoldable pub find_status : ℕ → List Entry → ℕ × Option Bytes
find_status code [] = (0, none)
find_status code ((s, len, base) ∷ es) = if s == code then (len, base) else find_status code es

unfoldable pub str_status_code : ℕ → ℕ × Option Bytes
str_status_code code = find_status code status_codes
