-- ===== src/Tests/Uploads.antt =====
-- Uploaded files and the meter, at concrete inputs.
use earful.StyleImage.Ends.{jpeg_rounds-jpeg_frame}
use earful.StyleImage.Written.{
  jpeg_file, Segment, Frame, frame_header, jpeg_frame-jpeg_file, extended,
}
use earful.StyleImage.Jpeg.{jpeg_frame, jpeg_rounds}
use earful.Tests.Data.{ascii}
use earful.Ai.Spend.{record_with-check_for, read_once}
use earful.Prelude.{
  false, none, refl, arith, ltb, ◌/◌, if◌then◌else◌, ℕ, List, ◌&&◌, All, ◌*◌, is_nil, some, length,
  ◌≤◌, [], ◌||◌, eqb, ◌==◌, Bool, true, ◌≡◌, ◌∷◌, nat_eq, list_eq, bool_eq, subst, eq_refl, ap,
  drop,
}
use earful.Attach.Safe.{forwarded_bytes, IsSniffed}
use earful.Attach.Names.{after_last, extension, clean_name_lem, clean_name, without}
use earful.Attach.Within.{prepare-IsWithin}
use earful.Attach.Identify.{
  is_text, check_claimed, is_claimed, check_extension, check_legacy, legacy_format, by_extension,
  identify,
}
use earful.Attach.Prepare.{
  prepare_files, given_limits, scan, recognised, add_kind, take_in, as_text, trim_mark, add_file,
  prepare, convert,
}
use earful.Attach.Types.{
  refused, accepted, Attachment, Readers, default_limits, unreadable, File, mime_pdf, refusal,
  mime_text,
}
use earful.Ai.Meter.{
  Meter, UsageRow, parse_tier, UsageStore, WorkspaceUsage, Float, fine, over_quota, cap_for, usage,
  check_for, over_budget, or_normal, record_with, record_tokens,
}
use earful.Prelude.Text.{trim_space, codes, Text, has_prefix}
use earful.Prelude.Int.{ℤ, ◌+ℤ◌, pos_part, ◌≤ℤ◌, pos, leb_ℤ, wrap64, ltb_ℤ, int_eq, int_eq}

-- Readers that know ASCII texts and PDF files, and open no archive.
instance abbrev plain_readers : Readers
plain_readers = record {
  sniff = λ content.
      if has_prefix content (codes "%PDF-")
      then codes "application/pdf"
      else codes "text/plain; charset=utf-8";
  runes = λ content. some content;
  to_bytes = λ t. t;
  is_control = λ c. ltb c 32 || eqb c 127;
  clean_path = λ t. t;
  unzip = λ content. none;
  known_malicious = λ content. some false;
  document_text = λ lim k content. refused (refusal unreadable []);
}

abbrev two_files : List File
two_files =
    record { name = codes "C:\\notes.txt"; content = codes " Hello " }
    ∷ record { name = codes "paper.PDF"; content = codes "%PDF-1.7" }
    ∷ []

abbrev two_attachments : List Attachment
two_attachments =
    record { name = codes "notes.txt"; mime = mime_text; content = codes "Hello" }
    ∷ record { name = codes "paper.PDF"; mime = mime_pdf; content = codes "%PDF-1.7" }
    ∷ []

two_files_accepted : prepare default_limits true two_files ≡ accepted two_attachments
unfolding prepare prepare_files given_limits scan add_file recognised add_kind take_in convert
    as_text trim_mark trim_space identify check_legacy legacy_format by_extension check_extension
    check_claimed is_claimed is_text extension clean_name after_last without earful.Prelude.list_beq
    earful.Prelude.contains has_prefix
two_files_accepted = refl

prepare-IsWithin_example :
    (length two_attachments ≤ 20)
    × (forwarded_bytes two_attachments ≤ 10485760)
    × All IsSniffed two_attachments
unfolding given_limits
prepare-IsWithin_example =
    prepare-IsWithin default_limits true two_files two_attachments two_files_accepted

clean_name_lem_example :
    (is_nil (trim_space (clean_name (codes "a/b c.txt"))) ≡ false)
    × (length (clean_name (codes "a/b c.txt")) ≤ 200)
    × (All (λ c. plain_readers.is_control c ≡ false) (clean_name (codes "a/b c.txt")))
clean_name_lem_example = clean_name_lem (codes "a/b c.txt") (refl, (refl, (refl, (refl, tt))))

-- Costs in whole units, rounded down.
abbrev whole_units : Float
whole_units = record {
  Carrier = ℤ;
  of_int = λ a. a;
  plus = λ a b. a +ℤ b;
  times = λ a b. pos (pos_part a * pos_part b);
  over = λ a b. pos (pos_part a / pos_part b);
  at_least = λ a b. leb_ℤ b a;
  above = λ a b. ltb_ℤ b a;
}

unfoldable tokens_of_rows : Text → ℤ → List (UsageRow whole_units) → ℤ
tokens_of_rows workspace day [] = pos 0
tokens_of_rows workspace day (row ∷ rows) =
    let rest = tokens_of_rows workspace day rows in
    if (workspace == row.workspace) && (day == row.day) then rest +ℤ row.tokens else rest

tokens_of_rows-add :
    (row : UsageRow whole_units) (rows rows2 : List (UsageRow whole_units)) (n : ℤ)
    → fine (row ∷ rows) ≡ fine rows2
    → fine (tokens_of_rows row.workspace row.day rows) ≡ fine n
    → fine (tokens_of_rows row.workspace row.day rows2) ≡ fine (n +ℤ row.tokens)
unfolding tokens_of_rows
tokens_of_rows-add row rows rows2 n e h =
    let added = read_once (fine (row ∷ rows)) (row ∷ rows) rows2 refl e in
    let before = read_once (fine (tokens_of_rows row.workspace row.day rows)) _ n refl h in
    let counted : fine (tokens_of_rows row.workspace row.day (row ∷ rows))
        ≡ fine (n +ℤ row.tokens) =
      rw (eq_refl row.workspace, eq_refl row.day) (ap (λ x. fine (x +ℤ row.tokens)) before) in
    subst (λ x. fine (tokens_of_rows row.workspace row.day x) ≡ fine (n +ℤ row.tokens)) added
      counted

-- The rows of ai_usage in memory, the newest first, where every workspace has the normal tier.
abbrev ledger : UsageStore whole_units
ledger = record {
  State = List (UsageRow whole_units);
  add = λ row rows. fine (row ∷ rows);
  tokens_on = λ workspace day rows. fine (tokens_of_rows workspace day rows);
  cost_on = λ day rows. fine (pos 0);
  voice_seconds_on = λ survey day rows. fine (pos 0);
  tier_of = λ workspace rows. fine (codes "normal");
  suspended = λ workspace rows. fine false;
  tokens_on-add = tokens_of_rows-add;
}

abbrev meter : Meter whole_units
meter = record {
  daily_tokens = record { low_normal_cap = pos 1000; normal_cap = pos 5000; high_cap = pos 9000 };
  daily_budget = pos 10;
  cost_per_1k = pos 1;
  voice_survey_daily_seconds = pos 600;
}

abbrev team : Text
team = codes "w1"

abbrev charged : UsageRow whole_units
charged = record {
  workspace = team;
  survey = none;
  kind = codes "generate";
  tokens = pos 2011;
  cost = pos 2;
  seconds = pos 0;
  day = pos 86400000000000;
}

passes : check_for ledger meter (pos 86400000000005) team (pos 2000) [] ≡ fine tt
unfolding check_for over_budget over_quota usage parse_tier or_normal cap_for tokens_of_rows ◌+ℤ◌
    wrap64 earful.Prelude.list_beq
passes = refl

recorded :
    record_with ledger meter (pos 86400000000009) team none (codes "generate") 40 (pos 2000) []
    ≡ fine (charged ∷ [])
unfolding record_with record_tokens ◌+ℤ◌ wrap64
recorded = refl

record_with-check_for_example :
    (u : WorkspaceUsage) × (usage ledger meter (pos 86400000000005) team [] ≡ fine u)
    × (ledger.tokens_on team (pos 86400000000000) (charged ∷ [])
        ≡ fine (pos 0 +ℤ (pos 11 +ℤ pos 2000)))
    × (pos 0 +ℤ (pos 11 +ℤ pos 2000) ≤ℤ u.cap +ℤ pos 11)
unfolding ◌+ℤ◌ tokens_of_rows
record_with-check_for_example =
    record_with-check_for ledger meter (pos 86400000000005) (pos 86400000000009) team none
      (codes "generate") 40 (pos 2000) (pos 0) [] (charged ∷ []) refl (omega arith) refl
      (omega arith, omega arith) (omega arith, omega arith) passes recorded

abbrev jfif_segment : Segment
jfif_segment = record { marker = 0xe0; body = codes "JFIF" }

abbrev colour_frame : Frame
colour_frame = record {
  kind = extended;
  precision = 8;
  width = 640;
  height = 480;
  components =
      record { id = 1; sampling = record { across = 2; down = 2 }; table = 0 }
      ∷ record { id = 2; sampling = record { across = 1; down = 1 }; table = 1 }
      ∷ [];
}

jpeg_frame-jpeg_file_example :
    jpeg_frame (jpeg_file (jfif_segment ∷ []) colour_frame (0xff ∷ 0xd9 ∷ []))
    ≡ some (frame_header colour_frame)
jpeg_frame-jpeg_file_example =
    jpeg_frame-jpeg_file (jfif_segment ∷ []) colour_frame (0xff ∷ 0xd9 ∷ []) (refl, tt)
      (
        omega arith,
        omega arith,
        (
          (omega arith, omega arith, omega arith, omega arith),
          ((omega arith, omega arith, omega arith, omega arith), tt),
        ),
      )

jpeg_rounds-jpeg_frame_example :
    jpeg_rounds 9 (drop 2 (0xff ∷ 0xd8 ∷ 0xff ∷ 0xd9 ∷ 0 ∷ []))
    ≡ some (jpeg_frame (0xff ∷ 0xd8 ∷ 0xff ∷ 0xd9 ∷ 0 ∷ []))
jpeg_rounds-jpeg_frame_example =
    jpeg_rounds-jpeg_frame 9 (0xff ∷ 0xd8 ∷ 0xff ∷ 0xd9 ∷ 0 ∷ []) (omega arith)
