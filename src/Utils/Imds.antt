-- ===== src/Utils/Imds.antt =====
-- HTTPGetAndParseBody of utils/utils.go and IMDSFetchIPv4CIDR of utils/imds.go. The HTTP server
-- behind `http.Get` and `io.ReadAll` is a parameter.
use Prim.Native.Char.{Char, code}
use ocs_osd_deployer.Base.{ℕ, String, ◌<>◌, ◌≡◌, refl, false, arith, ◌==◌, Bool-cases, inl, inr}
use ocs_osd_deployer.Base.Text.{split, replace, has_char}

-- What a request gives: `http.Get` fails, the body cannot be read, or its text.
pub data Response : Type 0 where
  get_failed : Response
  read_failed : Response
  body : String → Response

abbrev pub imds_server : String
imds_server = "http://169.254.169.254"

abbrev pub imds_config_map_name : String
imds_config_map_name = "aws-data"

abbrev pub cidr_key : String
cidr_key = "vpc-cidr"

-- The errors, by the step that failed.
pub data FetchError : Type 0 where
  get_error : String → FetchError
  read_error : FetchError
  mac_error : FetchError → FetchError
  cidr_error : String → FetchError → FetchError

pub data Fetched : Type 0 where
  fetched : String → Fetched
  fetch_failed : FetchError → Fetched

-- A network: the state of what is outside, which a request may change.
pub record Http : Type 1 where
  pub Net : Type 0
  pub get : String → Net → Response × Net

abbrev newline : Char
newline = "\n"

abbrev pub semicolon : Char
semicolon = ";"

module _ (http : Http) where
  open http use {Net, get}

  unfoldable pub http_get_and_parse_body : String → Net → Fetched × Net
  http_get_and_parse_body endpoint net =
      let (response, net') = get endpoint net in
      elim response [
        | get_failed ↦ (fetch_failed (get_error endpoint), net')
        | read_failed ↦ (fetch_failed read_error, net')
        | body text ↦ (fetched text, net')
      ]

  -- The second request, and the newlines of its answer turned into semicolons.
  unfoldable pub fetch_cidrs : String → String → Net → Fetched × Net
  unfolding http_get_and_parse_body
  fetch_cidrs server mac net =
      let endpoint =
        server
        <> ("/latest/meta-data/network/interfaces/macs/" <> (mac <> "/vpc-ipv4-cidr-blocks")) in
      let (r, net') = http_get_and_parse_body endpoint net in
      elim r [
        | fetched cidrs ↦ (fetched (replace b'\n' semicolon cidrs), net')
        | fetch_failed e ↦ (fetch_failed (cidr_error mac e), net')
      ]

  unfoldable pub imds_fetch_ipv4_cidr : String → Net → Fetched × Net
  unfolding fetch_cidrs http_get_and_parse_body
  imds_fetch_ipv4_cidr server net =
      let (r, net') = http_get_and_parse_body (server <> "/latest/meta-data/mac") net in
      elim r [
        | fetched mac ↦ fetch_cidrs server mac net'
        | fetch_failed e ↦ (fetch_failed (mac_error e), net')
      ]

-- Splitting at the new separator gives the pieces that the old one separated, if the new one does
-- not stand in the text already.
pub split-replace :
    (c : ℕ) (d : Char) (s : String)
    → has_char (code d) s ≡ false
    → split (code d) (replace c d s) ≡ split c s
unfolding split replace has_char
split-replace c d String.[] h = refl
split-replace c d (String.◌∷◌ x s) h = elim (Bool-cases (code x == c)) [
  | inl e ↦ ground (arith, split-replace c d s)
  | inr e ↦ ground (arith, split-replace c d s)
]
