-- ===== src/Examples/Files.antt =====
-- A fetch of two photographs and a scanned book, and a book that is split into its pages.
use marriage_be.Prelude.{
  String, true, false, none, some, List, [], ◌∷◌, ◌≡◌, refl, map, string_eq, nat_eq,
}
use marriage_be.Status.{processed, fetching}
use marriage_be.DocumentType.{handwritten_register, typed_nikah_modern, type_text}
use marriage_be.Db.Rows.{Submission, Document, Fields, text, Db}
use marriage_be.Db.Result.{ok, err, foreign, integrity_error}
use marriage_be.DocumentType.Routing.{classification_to_document_type}
use marriage_be.Batches.Repository.{get_batch, create_document}
use marriage_be.Batches.Recompute.{recompute_batch_status}
use marriage_be.Jobs.Repository.{create_job}
use marriage_be.Batches.Ingest.{Page, split_page_count, create_document_page_jobs}
use marriage_be.Batches.Ingest.Pages.{IsSplit, create_document_page_jobs-IsSplit}
use marriage_be.Onedrive.Repository.{get_submission, store_submission, mark_fetched}
use marriage_be.Onedrive.Repository.Skipped.{named, has, change_item}
use marriage_be.Onedrive.Repository.Sweeps.{claim_for_fetch}
use marriage_be.Onedrive.Repository.Deletion.{delete_submission_row}
use marriage_be.Onedrive.Deleted.{IsCleared, delete_submission_row-IsCleared}
use marriage_be.Onedrive.Classification.{
  File, Classification, apply_neighbor_fallback, apply_nikah_batch_fallback, route,
}
use marriage_be.Onedrive.Classification.Neighbours.{at_once, apply_neighbor_fallback-at_once}
use marriage_be.Onedrive.Ingest.{Outside, ingest_one_file}
use marriage_be.Onedrive.Intake.{save_local_file}
use marriage_be.Onedrive.Fetch.Duplicates.{sort_out}
use marriage_be.Onedrive.Service.{get_or_create_submission}
use marriage_be.Onedrive.Service.Posts.{IsAnswered, get_or_create_submission-find_or_insert}
use marriage_be.Onedrive.Skips.{queued_refetch, claim_entry}
use marriage_be.Onedrive.Skips.Queue.{queue-claim}
use marriage_be.Onedrive.Fetch.{World, run_onedrive_fetch, downloaded}
use marriage_be.Onedrive.Fetch.Endings.{IsEnded, run_onedrive_fetch-IsEnded}
use marriage_be.Onedrive.Fetch.Stacks.{Runner, classify_files}
use marriage_be.Onedrive.Repository.{get_submission_by_url, create_submission}
use marriage_be.Prelude.{first}
use marriage_be.Onedrive.Reclassify.{Reclassify, run_skipped_files_reclassify}
use marriage_be.Onedrive.Reclassify.Restored.{IsRestored, run_skipped_files_reclassify-IsRestored}
use marriage_be.Prelude.Sort.{sort_by}
use marriage_be.Onedrive.Repository.{restore_fetched}
use marriage_be.Onedrive.Repository.Skipped.{has, get_skipped_file, remove_skipped_file}
use marriage_be.Examples.Data.{empty, document_of, db}
use marriage_be.Examples.Onedrive.{waiting, linked, linked-HasKeys}

abbrev photo : (name digest : String) → File
photo name digest = record {
  path = name;
  name = name;
  extension = ".jpg";
  size = 10;
  sample = 255 ∷ 216 ∷ [];
  digest = digest;
}

abbrev title_page : Classification
title_page = record {
  doc_type = "handwritten";
  record_type = some "nikah";
  layout_variant = some "legacy";
  status = "ROUTABLE";
  config_path = none;
}

abbrev inner_page : Classification
inner_page = record {
  doc_type = "unknown";
  record_type = none;
  layout_variant = none;
  status = "NEEDS_MANUAL_CLASSIFICATION";
  config_path = none;
}

apply_neighbor_fallback_ledger :
    apply_neighbor_fallback (
      (photo "1.jpg" "a", title_page)
      ∷ (photo "2.jpg" "b", inner_page)
      ∷ (photo "3.jpg" "c", inner_page)
      ∷ (photo "4.jpg" "d", title_page)
      ∷ [])
    ≡ (photo "1.jpg" "a", title_page)
      ∷ (photo "2.jpg" "b", title_page)
      ∷ (photo "3.jpg" "c", title_page)
      ∷ (photo "4.jpg" "d", title_page)
      ∷ []
unfolding apply_neighbor_fallback
apply_neighbor_fallback_ledger = refl

apply_neighbor_fallback-at_once_example :
    apply_neighbor_fallback ((photo "1.jpg" "a", title_page) ∷ (photo "2.jpg" "b", inner_page) ∷ [])
    ≡ at_once [] ((photo "1.jpg" "a", title_page) ∷ (photo "2.jpg" "b", inner_page) ∷ [])
apply_neighbor_fallback-at_once_example =
    apply_neighbor_fallback-at_once
      ((photo "1.jpg" "a", title_page) ∷ (photo "2.jpg" "b", inner_page) ∷ [])

-- stacks of two, whose answers are always refused
abbrev refusing : Runner
refusing = record {
  stack_size = 2;
  stack_pdfs = false;
  cached = λ file. none;
  classify = λ file. ok (some title_page);
  classify_stack = λ stack. ok none;
}

abbrev outside : Outside
outside = record {
  guess = λ sample. some "image/jpeg";
  max_upload_bytes = 100;
  git_ref = "main";
  batch_text = "1";
  id_text = λ id. "5";
  document_id = λ file. 40;
  document_name = λ file. "40";
  job_id = λ file. 41;
  put_file = λ file. ok tt;
  page_count = λ file. ok 1;
  pages = λ file. ok [];
  accepts = λ job_id. true;
  now = 7;
}

abbrev world : World
world = record {
  claimed_at = 5;
  ended_at = 9;
  title = some "Daftar Nikah";
  download = downloaded (photo "1.jpg" "a" ∷ photo "2.jpg" "a" ∷ []);
  runner = refusing;
  outside = outside;
  preserved = λ file. true;
}

is_waiting : get_submission linked 6 ≡ some waiting
unfolding get_submission
is_waiting = refl

run_onedrive_fetch-IsEnded_example : IsEnded 6 (run_onedrive_fetch world 6 linked)
run_onedrive_fetch-IsEnded_example =
    run_onedrive_fetch-IsEnded world 6 linked waiting linked-HasKeys is_waiting

-- the first photograph is ingested, the second one is a copy of it
fetched_files :
    map (λ (s : Submission). s.skipped_files) (run_onedrive_fetch world 6 linked).submissions
    ≡ none
      ∷ some (
          (("filename", text "2.jpg")
            ∷ ("status", text "DUPLICATE")
            ∷ ("duplicate_of", text "file:1.jpg")
            ∷ [])
          ∷ [])
      ∷ []
unfolding run_onedrive_fetch get_submission claim_for_fetch classify_files sort_out store_submission
    mark_fetched apply_nikah_batch_fallback get_batch apply_neighbor_fallback route
    classification_to_document_type ingest_one_file save_local_file split_page_count create_job
    create_document recompute_batch_status
fetched_files = refl

abbrev book : Document
book = document_of 3 2 processed

abbrev two_pages : List Page
two_pages =
    record { job_id = 21; job_name = "21"; filename = "page-1.pdf"; size = 5 }
    ∷ record { job_id = 22; job_name = "22"; filename = "page-2.pdf"; size = 6 }
    ∷ []

create_document_page_jobs-IsSplit_example :
    IsSplit 1 book two_pages db
      (create_document_page_jobs 2 book handwritten_register "main" 7 two_pages db)
create_document_page_jobs-IsSplit_example =
    create_document_page_jobs-IsSplit 2 book handwritten_register "main" 7 two_pages db

-- another session submits the same link between the lookup and the INSERT
abbrev racing : Db → Db
racing d = record d { submissions = linked.submissions }

is_new : get_submission (racing empty) 9 ≡ none
unfolding get_submission
is_new = refl

get_or_create_submission-find_or_insert_example :
    IsAnswered 1 "https://1drv.ms/b" 9 3 racing empty 2 10 4 (λ d. d)
unfolding get_submission_by_url first
get_or_create_submission-find_or_insert_example =
    get_or_create_submission-find_or_insert 1 "https://1drv.ms/b" 9 3 racing empty is_new 2 10 4
      (λ d. d)

-- the batch is deleted between the lookup and the INSERT
gone_batch :
    get_or_create_submission 1 "https://1drv.ms/z" 9 3 (λ d. empty) db ≡ err integrity_error
unfolding get_or_create_submission get_submission_by_url create_submission get_submission get_batch
gone_batch = refl

abbrev lost_scan : Fields
lost_scan = ("filename", text "7.pdf") ∷ ("status", text "CLASSIFY_FAILED") ∷ []

is_lost_scan : named "7.pdf" lost_scan ≡ true
unfolding has
is_lost_scan = refl

queue-claim_example :
    claim_entry (change_item "7.pdf" (queued_refetch (type_text typed_nikah_modern) "t") lost_scan)
    ≡ ok (some typed_nikah_modern)
queue-claim_example = queue-claim typed_nikah_modern "7.pdf" "t" lost_scan is_lost_scan

delete_submission_row-IsCleared_example : IsCleared 6 linked (delete_submission_row 6 linked)
delete_submission_row-IsCleared_example = delete_submission_row-IsCleared 6 linked tt

abbrev reopened : Submission
reopened = record waiting {
  status = fetching;
  skipped_files =
      some ((("filename", text "1.jpg") ∷ ("status", text "CLASSIFY_FAILED") ∷ []) ∷ []);
}

abbrev reopened_db : Db
reopened_db = record linked { submissions = reopened ∷ [] }

-- the bytes of every entry are there, and every file is a title page
abbrev reclassify : Reclassify
reclassify = record {
  outside = outside;
  bytes = λ entry. some (photo "1.jpg" "z");
  classify = λ file. ok (some title_page);
  now = 12;
}

reopened_found : get_submission reopened_db 6 ≡ some reopened
unfolding get_submission
reopened_found = refl

-- the classifier runs into its time limit
abbrev timed_out : Reclassify
timed_out = record reclassify { classify = λ file. err (foreign "TimeoutExpired") }

run_skipped_files_reclassify-IsRestored_example :
    IsRestored 6 (run_skipped_files_reclassify timed_out 6 reopened_db)
run_skipped_files_reclassify-IsRestored_example =
    run_skipped_files_reclassify-IsRestored timed_out 6 reopened_db reopened reopened_found

-- the photograph is ingested and no longer a skipped file
reclassified_files :
    map
      (λ (s : Submission). s.skipped_files)
      (run_skipped_files_reclassify reclassify 6 reopened_db).submissions
    ≡ none ∷ []
unfolding run_skipped_files_reclassify get_submission sort_by has apply_nikah_batch_fallback
    get_batch apply_neighbor_fallback get_skipped_file route classification_to_document_type
    save_local_file split_page_count create_job create_document remove_skipped_file restore_fetched
    recompute_batch_status
reclassified_files = refl
