-- ===== src/Tests/Reads.antt =====
-- The views and the download of a document.
use documents_rag.Base.{[], ◌∷◌, codes, List, Text}
use documents_rag.Db.{Db}
use documents_rag.Db.Models.{document_key}
use documents_rag.Db.Rows.{get}
use documents_rag.Documents.Download.{download_document}
use documents_rag.Documents.Download.Outcomes.{Downloads, download_document-Downloads}
use documents_rag.Documents.Views.Outcomes.{ViewsAgree, get_document_results-ViewsAgree}
use documents_rag.Tests.Data.{failed_job, with_jobs}
use documents_rag.Tests.Stores.{files}

abbrev one_paper : Db
one_paper = with_jobs (failed_job ∷ [])

abbrev stored : List Text
stored = codes "documents/1/f1.txt" ∷ []

get_document_results-ViewsAgree_example : ViewsAgree one_paper 1
get_document_results-ViewsAgree_example = get_document_results-ViewsAgree one_paper 1

download_document-Downloads_example :
    Downloads files one_paper 1 stored
      (get 1 one_paper.documents)
      (download_document files one_paper 1 stored)
download_document-Downloads_example = download_document-Downloads files one_paper 1 stored
