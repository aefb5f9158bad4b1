-- ===== src/Tests/Helpers.antt =====
-- The helpers that plugins share and the plugin for file metadata, at concrete inputs.
use hardline.Base.{
  ◌⊎◌, if◌then◌else◌, none, false, fields, quoted, ℕ, Text, codes, ◌==◌, ◌≡◌, refl, Bool, true,
  some, [], ◌∷◌, ◌++◌, ok, err, all, trim_space, trim_left, trim_right, is_space, has_prefix, join,
  split, ◌<◌, arith,
}
use hardline.Pluginapi.Host.{Host}
use hardline.Pluginapi.Shell.{shell_arg}
use hardline.Pluginapi.Shell.Word.{unquote_shell_word}
use hardline.Pluginapi.Shell.Unquoting.{unquote_shell_word-shell_arg}
use hardline.Pluginapi.Records.{FileSnapshot, FileMetaSnapshot}
use hardline.Plugins.FileMeta.{
  Spec, does_not_exist, enforce_abs_clean_path, trim_slashes, is_target_byte, normalize_mode,
}
use hardline.Plugins.FileMeta.Metadata.{
  Desired, snapshot_file_meta, read_metadata, read_managed_attrs, managed_attrs, has_byte, desired,
  desired_managed_attrs,
}
use hardline.Plugins.FileMeta.Run.{apply}
use hardline.Plugins.FileMeta.Preview.{plan, preview, diff_of}
use hardline.Plugins.FileMeta.Idle.{plan-apply_idle}
use hardline.Pluginapi.Modes.{
  parse_file_mode, format_file_mode, octal_text, file_mode_from_octal, octal_from_file_mode,
  parse_octal, octal_value,
}
use hardline.Pluginapi.Modes.Spelling.{parse_file_mode-format_file_mode, parse_file_mode-bounded}
use hardline.Pluginapi.Paths.{rooted, clean_rooted, clean_components, clean_step}
use hardline.Pluginapi.Base64.{encode_to_string, decode_string}
use hardline.Pluginapi.Base64.Decoding.{is_byte, decode_string-encode_to_string}

abbrev quote_in_word : Text
quote_in_word = codes "it's here"

unquote_shell_word-shell_arg_example :
    unquote_shell_word (shell_arg quote_in_word) ≡ some quote_in_word
unquote_shell_word-shell_arg_example = unquote_shell_word-shell_arg quote_in_word

parse_file_mode-format_file_mode_example :
    (parse_file_mode (format_file_mode (file_mode_from_octal 2541))
      ≡ ok (file_mode_from_octal 2541))
    × (octal_from_file_mode (file_mode_from_octal 2541) ≡ 2541)
parse_file_mode-format_file_mode_example = parse_file_mode-format_file_mode 2541 (omega arith)

setuid_parses : parse_file_mode (codes " 04755") ≡ ok (file_mode_from_octal 2541)
unfolding parse_file_mode trim_space trim_left trim_right is_space parse_octal octal_value
    file_mode_from_octal
setuid_parses = refl

parse_file_mode-bounded_example :
    (n : ℕ) × (n < 4096) × (file_mode_from_octal 2541 ≡ file_mode_from_octal n)
parse_file_mode-bounded_example =
    parse_file_mode-bounded (codes " 04755") (file_mode_from_octal 2541) setuid_parses

abbrev sshd_path : Text
sshd_path = codes "/etc/ssh/sshd_config.d/99-hardline.conf"

abbrev content : Text
content = codes "hello"

content_bytes : all is_byte content ≡ true
content_bytes = refl

decode_string-encode_to_string_example : decode_string (encode_to_string content) ≡ some content
decode_string-encode_to_string_example = decode_string-encode_to_string content content_bytes

abbrev stat_out : Text
stat_out = codes "HL-STAT:regular file|644|root|root|5" ++ (10 ∷ (codes "HL-RC:0" ++ (10 ∷ [])))

-- A host with one file, of which `stat` answers.
abbrev file_host : Host Bool
file_host = record {
  run_root = λ cmd w. (ok tt, w);
  run_root_with_output = λ cmd w. (ok stat_out, w);
  run_root_with_timeout = λ cmd limit w. (ok [], w);
  stat_age = λ p w. (err (codes "missing"), w);
  read_root_file = λ p w. (ok content, w);
  write_root_file = λ p t mode w. (ok tt, w);
}

abbrev recorded : FileSnapshot
recorded = record {
  path = sshd_path;
  existed = true;
  mode = codes "644";
  owner = codes "root";
  group = codes "root";
  content_b64 = encode_to_string content;
}

-- A host with one path, of which `stat` and `lsattr` answer.
abbrev meta_host : Host Bool
meta_host = record {
  run_root = λ cmd w. (ok tt, w);
  run_root_with_output = λ cmd w. (
    ok (
        if has_prefix cmd (codes "stat")
        then codes "644 root root"
        else codes "-----a------ /srv/log"),
    w,
  );
  run_root_with_timeout = λ cmd limit w. (ok [], w);
  stat_age = λ p w. (err (codes "missing"), w);
  read_root_file = λ p w. (err (codes "missing"), w);
  write_root_file = λ p t mode w. (ok tt, w);
}

abbrev log_meta : Spec
log_meta = record {
  path = codes "/srv/log/";
  mode = codes "0644";
  owner = codes "root";
  group = [];
  immutable = none;
  append_only = some true;
}

abbrev log_found : FileMetaSnapshot
log_found = record {
  path = codes "/srv/log";
  existed = true;
  mode = codes "644";
  owner = codes "root";
  group = codes "root";
  attrs = codes "a";
}

abbrev log_wanted : Desired
log_wanted = record {
  mode = codes "644";
  owner = codes "root";
  group = codes "root";
  attrs = codes "a";
}

log_planned :
    (plan meta_host log_meta true).0 ≡ ok (preview log_meta (codes "/srv/log") log_found log_wanted)
unfolding plan enforce_abs_clean_path trim_slashes is_target_byte clean_rooted clean_components
    clean_step rooted snapshot_file_meta read_metadata read_managed_attrs managed_attrs has_byte
    desired normalize_mode desired_managed_attrs parse_file_mode format_file_mode parse_octal
    octal_value octal_from_file_mode octal_text file_mode_from_octal preview diff_of fields
    trim_space trim_left trim_right is_space has_prefix ◌==◌ split join quoted
log_planned = refl

log_quiet : (preview log_meta (codes "/srv/log") log_found log_wanted).will_change ≡ false
unfolding preview diff_of ◌==◌ trim_space trim_left trim_right is_space
log_quiet = refl

plan-apply_idle_example :
    (apply meta_host log_meta true ≡ (ok tt, (plan meta_host log_meta true).1))
    ⊎ ((target : Text) × (apply meta_host log_meta true
          ≡ (err (does_not_exist target), (plan meta_host log_meta true).1)))
plan-apply_idle_example =
    plan-apply_idle meta_host log_meta true
      (preview log_meta (codes "/srv/log") log_found log_wanted) log_planned log_quiet
