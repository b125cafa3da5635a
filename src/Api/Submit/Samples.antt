-- ===== src/Api/Submit/Samples.antt =====
-- Data for the tests of Api/Submit.
use unlimited_ocr_server.Prelude.{Text, codes, [], ◌++◌, some, none}
use unlimited_ocr_server.Util.{png}
use unlimited_ocr_server.Api.Http.{Io, done}
use unlimited_ocr_server.Api.Submit.Multipart.{MultipartInferenceRequest}
use unlimited_ocr_server.Api.Submit.Validation.{Url, Decoder}

abbrev pub request : MultipartInferenceRequest
request = record {
  file = some (record {
    filename = none;
    content_type = some (codes "image/png");
    bytes = codes "png-bytes";
  });
  text_input = some (codes "b");
  webhook_url = none;
}

abbrev pub url_to : Text → Url
url_to host = record {
  scheme = codes "https";
  username = [];
  password = none;
  fragment = none;
  host_str = some host;
  text = codes "https://" ++ host ++ codes "/";
}

abbrev pub parse_url : Text → Io Url
parse_url text = done (url_to (codes "8.8.8.8"))

abbrev pub decoder : Decoder
decoder = record {
  guess_format = λ bytes. some png;
  with_guessed_format = λ bytes. done tt;
  into_dimensions = λ bytes. done (800, 600);
  format_name = λ format. codes "Png";
}
