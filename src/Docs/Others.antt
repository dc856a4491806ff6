-- ===== src/Docs/Others.antt =====
-- The code of `SDK_EXAMPLES` in web/src/app/docs/page.tsx for the other languages, line by line.
use uni_llm.Prelude.{List, String, [], ◌∷◌}

abbrev pub java_code : List String
java_code =
    "import java.net.URI;" ∷ "import java.net.http.HttpClient;"
    ∷ "import java.net.http.HttpRequest;" ∷ "import java.net.http.HttpResponse;" ∷ ""
    ∷ "public class UniLLMExample {"
    ∷ "    public static void main(String[] args) throws Exception {"
    ∷ "        String json = \"\"\"" ∷ "            {" ∷ "              \"model\": \"deepseek-v3\","
    ∷ "              \"messages\": [{\"role\": \"user\", \"content\": \"Hello!\"}]"
    ∷ "            }" ∷ "            \"\"\";" ∷ ""
    ∷ "        HttpRequest request = HttpRequest.newBuilder()"
    ∷ "            .uri(URI.create(\"https://your-domain/v1/chat/completions\"))"
    ∷ "            .header(\"Authorization\", \"Bearer sk-your-key\")"
    ∷ "            .header(\"Content-Type\", \"application/json\")"
    ∷ "            .POST(HttpRequest.BodyPublishers.ofString(json))" ∷ "            .build();" ∷ ""
    ∷ "        HttpResponse<String> response = HttpClient.newHttpClient()"
    ∷ "            .send(request, HttpResponse.BodyHandlers.ofString());"
    ∷ "        System.out.println(response.body());" ∷ "    }" ∷ "}" ∷ []

abbrev pub ruby_code : List String
ruby_code =
    "require 'net/http'" ∷ "require 'json'" ∷ "require 'uri'" ∷ ""
    ∷ "uri = URI(\"https://your-domain/v1/chat/completions\")"
    ∷ "http = Net::HTTP.new(uri.host, uri.port)" ∷ "http.use_ssl = true" ∷ ""
    ∷ "request = Net::HTTP::Post.new(uri)" ∷ "request[\"Authorization\"] = \"Bearer sk-your-key\""
    ∷ "request[\"Content-Type\"] = \"application/json\"" ∷ "request.body = {"
    ∷ "  model: \"deepseek-v3\"," ∷ "  messages: [{ role: \"user\", content: \"Hello!\" }]"
    ∷ "}.to_json" ∷ "" ∷ "response = http.request(request)" ∷ "result = JSON.parse(response.body)"
    ∷ "puts result[\"choices\"][0][\"message\"][\"content\"]" ∷ []

abbrev pub php_code : List String
php_code =
    "<?php" ∷ "$ch = curl_init(\"https://your-domain/v1/chat/completions\");" ∷ ""
    ∷ "$payload = json_encode([" ∷ "    \"model\" => \"deepseek-v3\"," ∷ "    \"messages\" => ["
    ∷ "        [\"role\" => \"user\", \"content\" => \"Hello!\"]" ∷ "    ]" ∷ "]);" ∷ ""
    ∷ "curl_setopt_array($ch, [" ∷ "    CURLOPT_RETURNTRANSFER => true,"
    ∷ "    CURLOPT_POST => true," ∷ "    CURLOPT_POSTFIELDS => $payload,"
    ∷ "    CURLOPT_HTTPHEADER => [" ∷ "        \"Authorization: Bearer sk-your-key\","
    ∷ "        \"Content-Type: application/json\"" ∷ "    ]" ∷ "]);" ∷ ""
    ∷ "$response = curl_exec($ch);" ∷ "curl_close($ch);" ∷ ""
    ∷ "$result = json_decode($response, true);"
    ∷ "echo $result[\"choices\"][0][\"message\"][\"content\"];" ∷ []

abbrev pub curl_code : List String
curl_code =
    "curl https://your-domain/v1/chat/completions \\"
    ∷ "  -H \"Authorization: Bearer sk-your-key\" \\" ∷ "  -H \"Content-Type: application/json\" \\"
    ∷ "  -d '{" ∷ "    \"model\": \"gemini-flash\","
    ∷ "    \"messages\": [{\"role\": \"user\", \"content\": \"Hello!\"}]" ∷ "  }'" ∷ []
