-- ===== src/Tests/ReadBack.antt =====
-- A license in Markdown is uploaded and read, and another one is removed.
use aperip_nomos.Prelude.{◌≡◌, refl, [], ◌∷◌, some, true, false}
use aperip_nomos.Prelude.Int.{pos}
use aperip_nomos.Prelude.Result.{Result, ok, err}
use aperip_nomos.Text.{codes, rsplit_once, eq_ignore_ascii_case}
use aperip_nomos.Store.Core.{
  create as create_license, delete as delete_license, delete_in, remove_document, persist_delete,
}
use aperip_nomos.Sql.{delete_statement}
use aperip_nomos.Markdown.{
  get as get_rendered, insert as insert_rendering, make_room, is_full, store, render_now,
  render_once, saturating_add, put,
}
use aperip_nomos.Markdown.Room.{empty-IsCounted}
use aperip_nomos.Http.{
  ApiError, StatusCode, created_201, no_content_204, LicenseDetail, not_found, detail,
  is_markdown_filename, render_document_markdown, store_operation, body_format,
}
use aperip_nomos.Http.Admin.{
  Field, read_chunks, read_file, read_file_field, read_named, read_field, parse_from, parse_upload,
  draft_of,
}
use aperip_nomos.Http.Handlers.{
  App, answered, operate, render_cached, rendering, render_draft, from_document, create_draft,
  create_handler, remove_handler, detail_handler,
}
use aperip_nomos.Http.ReadBack.{read_after_upload, missing_after_removal}
use aperip_nomos.Store.Create.{create-Created}
use aperip_nomos.Tests.Crate.{crates}
use aperip_nomos.Tests.Crate.Laws.{memory_laws}
use aperip_nomos.Tests.Domain.{mit}
use aperip_nomos.Tests.Store.{fresh, fresh-IsOpen, uploaded}
use aperip_nomos.Tests.Actor.{store_program}
use aperip_nomos.Tests.Markdown.{doubled}
use aperip_nomos.Tests.Http.{file}
use aperip_nomos.Tests.Upload.{app}

abbrev page : Field
page = record file { file_name = some (codes "MIT License.md") }

abbrev Answered : Type 0
Answered = Result ApiError (StatusCode × LicenseDetail) × App crates doubled

abbrev answered_page : Answered
answered_page =
    create_handler crates doubled (some page ∷ []) (some (pos 7)) answered true false app

abbrev shown : LicenseDetail
shown = record {
  id = pos 1;
  slug = mit.slug;
  title = mit.title;
  body = mit.body;
  body_format = codes "markdown";
  rendered_html = some (doubled mit.body);
  source_filename = codes "MIT License.md";
  sha256 = mit.sha256;
  uploaded_at_ms = pos 7;
}

page_made : answered_page ≡ (ok (created_201, shown), answered_page.1)
unfolding store_program create_handler create_draft draft_of parse_upload parse_from read_field
    read_named read_file_field read_file read_chunks operate store_operation render_draft
    from_document rendering render_cached render_document_markdown is_markdown_filename detail
    body_format rsplit_once eq_ignore_ascii_case get_rendered render_once render_now
    insert_rendering make_room is_full store saturating_add put
page_made = refl

read_after_upload_example :
    detail_handler crates doubled shown.slug answered false answered_page.1
    ≡ (ok shown, answered_page.1)
read_after_upload_example =
    read_after_upload crates doubled memory_laws app (some page ∷ []) (some (pos 7)) answered true
      false created_201 shown answered_page.1 (fresh-IsOpen []) empty-IsCounted page_made false

-- the store with a license
abbrev full : App crates doubled
full = record app { core = (create_license crates mit (fresh [])).1 }

abbrev removed : Result ApiError StatusCode × App crates doubled
removed = remove_handler crates doubled mit.slug answered full

removal_made : removed ≡ (ok no_content_204, removed.1)
unfolding store_program remove_handler operate store_operation delete_license delete_in
    remove_document persist_delete delete_statement
removal_made = refl

missing_after_removal_example :
    detail_handler crates doubled mit.slug answered true removed.1 ≡ (err not_found, removed.1)
missing_after_removal_example =
    missing_after_removal crates doubled memory_laws full mit.slug answered no_content_204 removed.1
      (create-Created crates memory_laws (fresh []) mit (fresh-IsOpen []) uploaded).coherent
      removal_made true
