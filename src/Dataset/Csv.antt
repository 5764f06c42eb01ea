-- ===== src/Dataset/Csv.antt =====
-- Import and export of datasets as CSV: src/dataset/dataset-csv.service.ts and the imports of
-- src/dataset/dataset.controller.ts. The reader of CSV files is a third-party package.
mod Infer
mod Detected
mod Imported
mod Export
mod Reader
mod Escaped
mod RoundTrip
mod Tests
